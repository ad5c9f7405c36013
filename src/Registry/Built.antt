-- ===== src/Registry/Built.antt =====
-- internal/daemon/daemon.go: what `buildModelRegistry` puts into the registry.
use mathlib.Core.List.{Memᴰ}
use cognitiveosd.Prelude.{
  String, ◌≡◌, refl, ◌≢◌, ◌⊎◌, inl, inr, true, Option, none, some, List, [], ◌∷◌, ◌∙◌, arith,
  eq_iff, ◌==◌, Bool-cases,
}
use cognitiveosd.Prelude.Dict.{Dict, lookup, lookup-insert}
use cognitiveosd.Prelude.Opt.{>>=-eq-some}
use cognitiveosd.Protocol.{ModelRegistryEntry}
use cognitiveosd.Protocol.Env.{Env, DirEntry}
use cognitiveosd.Registry.{
  registry_entry, add_entry, build_from, build_model_registry, entries_or_none, stands,
  manifest_text, registered_brain, registered_model, registered_routing,
}
use cognitiveosd.Registry.Manifest.{Brain, WideModel, Routing, decode_brain}

-- What the code asks of an entry before it registers it.
abbrev pub IsUsable : Env → ModelRegistryEntry → Type 0
IsUsable env e = (e.model_id ≢ "") × (stands (env.stat e.gguf_file_path) ≡ true)

registered_routing-IsUsable :
    (env : Env) (dir name : String) (remote : Option String) (r : Option Routing)
    (e : ModelRegistryEntry)
    → registered_routing env dir name remote r ≡ some e
    → IsUsable env e
unfolding registered_routing
registered_routing-IsUsable env dir name remote none e h = cc
registered_routing-IsUsable env dir name none (some r) e h = cc
registered_routing-IsUsable env dir name (some f) (some r) e h =
    ground (arith, eq_iff r.model_id "")

registered_brain-IsUsable :
    (env : Env) (dir name : String) (b : Option Brain) (e : ModelRegistryEntry)
    → registered_brain env dir name b ≡ some e
    → IsUsable env e
unfolding registered_brain registered_model
registered_brain-IsUsable env dir name none e h = cc
registered_brain-IsUsable env dir name (some b) e h = go b.wide_model h
  where
    go : (w : Option WideModel) → registered_model env dir name w ≡ some e → IsUsable env e
    go none eq = cc
    go (some w) eq = registered_routing-IsUsable env dir name _ w.routing e eq

registry_entry-IsUsable :
    (env : Env) (dir : String) (d : DirEntry) (e : ModelRegistryEntry)
    → registry_entry env dir d ≡ some e
    → IsUsable env e × (d.is_dir ≡ true)
unfolding registry_entry
registry_entry-IsUsable env dir d e h =
    let (text, found, h') = >>=-eq-some (manifest_text env dir d) _ h in
    let (j, parsed, h'') = >>=-eq-some (env.parse_json text) _ h' in
    let (b, decoded, h3) = >>=-eq-some (decode_brain j) _ h'' in
    (registered_brain-IsUsable env dir d.name b e h3, ground arith)

lookup-empty : (id : String) (e : ModelRegistryEntry) → ¬ (lookup id [] ≡ some e)
unfolding lookup
lookup-empty id e h = cc

-- An entry of the registry, with the directory entry that it comes from.
pub record Source (env : Env) (dir : String) (es : List DirEntry) (id : String)
    (e : ModelRegistryEntry) : Type 0 where
  pub patch : DirEntry
  pub listed : Memᴰ patch es
  pub directory : patch.is_dir ≡ true
  pub made : registry_entry env dir patch ≡ some e
  pub named : e.model_id ≡ id

module _ (env : Env) (dir : String) where
  Source-cons :
      {d : DirEntry} {es : List DirEntry} {id : String} {e : ModelRegistryEntry}
      → Source env dir es id e
      → Source env dir (d ∷ es) id e
  Source-cons s = record {
    patch = s.patch;
    listed = Memᴰ.tail s.listed;
    directory = s.directory;
    made = s.made;
    named = s.named;
  }

  add_entry_sound :
      (d : DirEntry) (es : List DirEntry) (made : Option ModelRegistryEntry)
      (m : Dict ModelRegistryEntry) (id : String) (e : ModelRegistryEntry)
      → registry_entry env dir d ≡ made
      → lookup id (add_entry env dir made m) ≡ some e
      → (lookup id m ≡ some e) ⊎ Source env dir (d ∷ es) id e
  unfolding add_entry
  add_entry_sound d es none m id e p h = inl h
  add_entry_sound d es (some x) m id e p h = elim (Bool-cases (x.model_id == id)) [
    | inl same ↦
        let there : some x ≡ some e = ground (arith, lookup-insert x.model_id id x m) in
        inr (record {
          patch = d;
          listed = Memᴰ.head refl;
          directory = (registry_entry-IsUsable env dir d x p).1;
          made = p ∙ there;
          named = ground (arith, eq_iff x.model_id id);
        })
    | inr other ↦ inl (ground (arith, lookup-insert x.model_id id x m))
  ]

  build_from_sound :
      (es : List DirEntry) (m : Dict ModelRegistryEntry) (id : String) (e : ModelRegistryEntry)
      → lookup id (build_from env dir es m) ≡ some e
      → (lookup id m ≡ some e) ⊎ Source env dir es id e
  unfolding build_from
  build_from_sound [] m id e h = inl h
  build_from_sound (d ∷ es) m id e h =
      elim (build_from_sound es (add_entry env dir (registry_entry env dir d) m) id e h) [
        | inl early ↦ add_entry_sound d es (registry_entry env dir d) m id e refl early
        | inr later ↦ inr (Source-cons later)
      ]

-- A model that the built registry knows comes from a directory of the patch directory, stands there
-- under its own identifier, which is not empty, and its weights were on the disk.
pub build_model_registry_sound :
    (env : Env) (dir id : String) (e : ModelRegistryEntry)
    → lookup id (build_model_registry env dir) ≡ some e
    → Source env dir (entries_or_none (env.read_dir dir)) id e × IsUsable env e
unfolding build_model_registry
build_model_registry_sound env dir id e h =
    elim (build_from_sound env dir (entries_or_none (env.read_dir dir)) [] id e h) [
      | inl none_there ↦ absurd (lookup-empty id e none_there)
      | inr s ↦ (s, (registry_entry-IsUsable env dir s.patch e s.made).0)
    ]
