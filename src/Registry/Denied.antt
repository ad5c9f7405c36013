-- ===== src/Registry/Denied.antt =====
-- internal/daemon/daemon.go: `loadWideModel` under a raw model that denies the memory.
use cognitiveosd.Prelude.{String, ◌≡◌, refl, ◌≢◌, true, false, none, List, [], ◌∷◌, arith}
use cognitiveosd.Prelude.Dict.{Dict}
use cognitiveosd.Prelude.Int.{ℤ}
use cognitiveosd.Prelude.Result.{Result, ok, err}
use cognitiveosd.Config.{Config}
use cognitiveosd.Protocol.{ModelRegistryEntry}
use cognitiveosd.Protocol.Env.{Env, DirEntry}
use cognitiveosd.Raw.{Raw, is_ready}
use cognitiveosd.Raw.Requests.{Audit, audit_resources}
use cognitiveosd.Registry.Models.{
  audited, load_wide_model, load_first, load_from_dir, model_dir, Loading,
}
use cognitiveosd.Wide.{Wide}

audited_denied :
    (env : Env) (cfg : Config) (r : Raw) (a : Audit)
    → is_ready r ≡ true
    → (audit_resources env (ℤ.pos 0) r).1 ≡ ok a
    → a.allowed ≡ false
    → audited env cfg r ≡ ((audit_resources env (ℤ.pos 0) r).0, false)
unfolding audited
audited_denied env cfg r a ready answered not_allowed = ground arith

abbrev IsRefused : Wide → Loading → Type 0
IsRefused w l = (l.1 ≡ w) × (l.2 ≢ none)

load_first-IsRefused :
    (env : Env) (cfg : Config) (dir : String) (es : List DirEntry) (r r' : Raw) (w : Wide)
    → audited env cfg r ≡ (r', false)
    → IsRefused w (load_first env cfg dir es r w)
unfolding load_first
load_first-IsRefused env cfg dir [] r r' w h = (refl, λ e. cc)
load_first-IsRefused env cfg dir (e ∷ es) r r' w h =
    let (same, failed) = load_first-IsRefused env cfg dir es r r' w h in
    (ground arith, ground arith)

load_from_dir-IsRefused :
    (env : Env) (cfg : Config) (dir : String) (es : Result (List DirEntry)) (r r' : Raw) (w : Wide)
    → audited env cfg r ≡ (r', false)
    → IsRefused w (load_from_dir env cfg dir es r w)
load_from_dir-IsRefused env cfg dir (err e) r r' w h = unfold load_from_dir in (refl, λ e. cc)
load_from_dir-IsRefused env cfg dir (ok es) r r' w h =
    unfold load_from_dir in load_first-IsRefused env cfg dir es r r' w h

load-IsRefused :
    (env : Env) (cfg : Config) (registry : Dict ModelRegistryEntry) (r r' : Raw) (w : Wide)
    → audited env cfg r ≡ (r', false)
    → IsRefused w (load_wide_model env cfg registry r w)
load-IsRefused env cfg [] r r' w h =
    unfold load_wide_model in
    load_from_dir-IsRefused env cfg (model_dir env cfg) (env.read_dir (model_dir env cfg)) r r' w h
load-IsRefused env cfg ((id, e) ∷ m) r r' w h = unfold load_wide_model in rw h (refl, λ e. cc)

-- While the raw model is ready and its audit does not allow the memory, `loadWideModel` fails and
-- leaves the engine's client as it was, without an exchange: nothing is loaded, whatever the
-- registry and the model directory hold.
pub load_wide_model-denied :
    (env : Env) (cfg : Config) (registry : Dict ModelRegistryEntry) (r : Raw) (w : Wide) (a : Audit)
    → is_ready r ≡ true
    → (audit_resources env (ℤ.pos 0) r).1 ≡ ok a
    → a.allowed ≡ false
    → ((load_wide_model env cfg registry r w).1 ≡ w)
      × ((load_wide_model env cfg registry r w).2 ≢ none)
load_wide_model-denied env cfg registry r w a ready answered not_allowed =
    load-IsRefused env cfg registry r _ w (audited_denied env cfg r a ready answered not_allowed)
