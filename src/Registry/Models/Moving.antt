-- ===== src/Registry/Models/Moving.antt =====
-- internal/daemon/daemon.go: what `hotSwapWideModel` and `loadWideModel` do to the two clients.
use cognitiveosd.Prelude.{
  String, Bool, true, false, Option, none, some, List, [], ◌∷◌, ◌==◌, if◌then◌else◌,
}
use cognitiveosd.Prelude.Dict.{Dict}
use cognitiveosd.Prelude.Int.{ℤ}
use cognitiveosd.Prelude.Result.{Result, ok, err}
use cognitiveosd.Config.{Config}
use cognitiveosd.Protocol.{ModelRegistryEntry}
use cognitiveosd.Protocol.Env.{Env, DirEntry}
use cognitiveosd.Raw.{Raw, is_ready}
use cognitiveosd.Raw.Asked.{Asked, Asked-trans, audit_resources-Asked}
use cognitiveosd.Raw.Requests.{Audit, audit_resources}
use cognitiveosd.Registry.{resolve_gguf}
use cognitiveosd.Registry.Models.{
  Loading, audit_checked, audited, continued, entry_loaded, file_loaded, hot_swap, is_model,
  load_entry, load_file, load_first, load_from_dir, load_wide_model, model_dir, swap_to, swapped,
  with_system_prompt,
}
use cognitiveosd.Wide
use cognitiveosd.Wide.{Wide, load, load_with_id, loaded_model_id, unload}
use cognitiveosd.Wide.Driven.{Driven, Driven-trans, load-Driven}

module _ (env : Env) (May Generates : Type 0) (cfg : Config) where
  -- By methods, against the configured engine.
  abbrev pub IsDriven : Wide → Wide → Type 0
  IsDriven = Driven env Generates cfg.inference_url

  with_system_prompt-Driven :
      (prompt : String) (w v : Wide) → IsDriven w v → IsDriven w (with_system_prompt prompt v)
  with_system_prompt-Driven prompt w v h = chosen (prompt == "")
    where
      chosen : (b : Bool) → IsDriven w (if b then v else Wide.set_system_prompt prompt v)
      chosen true = h
      chosen false = Driven.prompts h prompt

  swapped-Driven :
      (id : String) (w : Wide) (x : Wide × Option String)
      → IsDriven w x.0
      → IsDriven w (swapped env cfg id x).0
  unfolding swapped
  swapped-Driven id w (v, some e) h = h
  swapped-Driven id w (v, none) h = with_system_prompt-Driven _ w v h

  swap_to-Driven : (path id : String) (w : Wide) → IsDriven w (swap_to env cfg path id w).0
  unfolding swap_to
  swap_to-Driven path id w =
      swapped-Driven id w _ (Driven.loads (Driven.unloads Driven.nothing "swap") path id)

  if-Driven :
      (b : Bool) (w : Wide) (x y : Wide × Option String)
      → IsDriven w x.0
      → IsDriven w y.0
      → IsDriven w (if b then x else y).0
  if-Driven true w x y h k = h
  if-Driven false w x y h k = k

  pub hot_swap-Driven :
      (registry : Dict ModelRegistryEntry) (id : String) (w : Wide)
      → IsDriven w (hot_swap env cfg registry id w).0
  unfolding hot_swap
  hot_swap-Driven registry id w = if-Driven (id == "") w _ _ Driven.nothing (
      if-Driven (loaded_model_id w == id) w _ _ Driven.nothing
        (if-Driven (resolve_gguf id registry == "") w _ _ Driven.nothing (swap_to-Driven _ id w)))

  audit_checked-Asked :
      (r : Raw) (x : Raw × Result Audit)
      → Asked env May r x.0
      → Asked env May r (audit_checked env cfg x).0
  unfolding audit_checked
  audit_checked-Asked r (s, a) h = h

  audited-Asked : (r : Raw) → Asked env May r (audited env cfg r).0
  unfolding audited
  audited-Asked r = chosen (is_ready r)
    where
      chosen :
          (b : Bool)
          → Asked env May r
              (if b then audit_checked env cfg (audit_resources env (ℤ.pos 0) r) else (r, true)).0
      chosen true =
          audit_checked-Asked r (audit_resources env (ℤ.pos 0) r)
            (audit_resources-Asked env May (ℤ.pos 0) r)
      chosen false = Asked.nothing

  -- A load changes the two clients by their methods.
  abbrev pub Loads : Raw → Wide → Loading → Type 0
  Loads r w l = Asked env May r l.0 × IsDriven w l.1

  Loads-trans :
      (r s : Raw) (w v : Wide) (l : Loading)
      → Asked env May r s
      → IsDriven w v
      → Loads s v l
      → Loads r w l
  Loads-trans r s w v l a b (a', b') =
      (Asked-trans env May a a', Driven-trans env Generates cfg.inference_url b b')

  entry_loaded-Loads :
      (r : Raw) (w : Wide) (x : Wide × Option String)
      → IsDriven w x.0
      → Loads r w (entry_loaded env cfg r x).0
  unfolding entry_loaded
  entry_loaded-Loads r w (v, some e) h = (Asked.nothing, h)
  entry_loaded-Loads r w (v, none) h = (Asked.nothing, with_system_prompt-Driven _ w v h)

  load_entry-Loads :
      (id : String) (e : ModelRegistryEntry) (r : Raw) (x : Raw × Bool) (w : Wide)
      → Asked env May r x.0
      → Loads r w (load_entry env cfg id e x w).0
  unfolding load_entry
  load_entry-Loads id e r (s, false) w a = (a, Driven.nothing)
  load_entry-Loads id e r (s, true) w a =
      Loads-trans r s w w
        (entry_loaded env cfg s (load_with_id env cfg.inference_url e.gguf_file_path id w)).0 a
        Driven.nothing (entry_loaded-Loads s w _ (Driven.loads Driven.nothing e.gguf_file_path id))

  file_loaded-Loads :
      (r : Raw) (w : Wide) (x : Wide × Option String)
      → IsDriven w x.0
      → Loads r w (file_loaded env cfg r x)
  unfolding file_loaded
  file_loaded-Loads r w (v, e) h = (Asked.nothing, h)

  load_file-Loads :
      (path : String) (r : Raw) (x : Raw × Bool) (w : Wide)
      → Asked env May r x.0
      → Loads r w (load_file env cfg path x w)
  unfolding load_file
  load_file-Loads path r (s, false) w a = (a, Driven.nothing)
  load_file-Loads path r (s, true) w a =
      Loads-trans r s w w (file_loaded env cfg s (load env cfg.inference_url path w)) a
        Driven.nothing
        (file_loaded-Loads s w (load env cfg.inference_url path w)
          (load-Driven env Generates cfg.inference_url path w))

  if-Loads :
      (b : Bool) (r : Raw) (w : Wide) (x y : Loading)
      → Loads r w x
      → Loads r w y
      → Loads r w (if b then x else y)
  if-Loads true r w x y h k = h
  if-Loads false r w x y h k = k

  load_first-Loads :
      (dir : String) (es : List DirEntry) (r : Raw) (w : Wide)
      → Loads r w (load_first env cfg dir es r w)
  unfolding load_first
  load_first-Loads dir [] r w = (Asked.nothing, Driven.nothing)
  load_first-Loads dir (e ∷ es) r w =
      if-Loads (is_model env cfg e) r w _ _ (load_file-Loads _ r _ w (audited-Asked r))
        (load_first-Loads dir es r w)

  load_from_dir-Loads :
      (dir : String) (es : Result (List DirEntry)) (r : Raw) (w : Wide)
      → Loads r w (load_from_dir env cfg dir es r w)
  unfolding load_from_dir
  load_from_dir-Loads dir (err e) r w = (Asked.nothing, Driven.nothing)
  load_from_dir-Loads dir (ok es) r w = load_first-Loads dir es r w

  continued-Loads :
      (r : Raw) (w : Wide) (x : Loading × Bool) (rest : Raw → Wide → Loading)
      → Loads r w x.0
      → ((s : Raw) (v : Wide) → Loads s v (rest s v))
      → Loads r w (continued env cfg x rest)
  continued-Loads r w (l, false) rest h next = h
  continued-Loads r w ((s, v, e), true) rest (a, b) next =
      Loads-trans r s w v (rest s v) a b (next s v)

  pub load_wide_model-Loads :
      (m : Dict ModelRegistryEntry) (r : Raw) (w : Wide) → Loads r w (load_wide_model env cfg m r w)
  unfolding load_wide_model
  load_wide_model-Loads [] r w =
      load_from_dir-Loads (model_dir env cfg) (env.read_dir (model_dir env cfg)) r w
  load_wide_model-Loads ((id, e) ∷ m) r w =
      continued-Loads r w (load_entry env cfg id e (audited env cfg r) w) _
        (load_entry-Loads id e r (audited env cfg r) w (audited-Asked r)) (load_wide_model-Loads m)
