-- ===== src/Socket/Listed.antt =====
-- internal/daemon/daemon.go: what a table of clients lists, when a connection changes.
use cognitiveosd.Prelude.{
  ℕ, String, ◌≡◌, ◌≢◌, sym, ◌∙◌, false, [], ◌∷◌, ◌==◌, eqb, eq_of_eqb, All, ap, arith, eq_iff,
  Bool-cases, inl, inr, if◌then◌else◌,
}
use cognitiveosd.Prelude.Dict.{Dict, delete, insert}
use cognitiveosd.Daemon.{ClientConn}

-- A connection that has no place in the table.
abbrev pub IsNew : ℕ → Dict ℕ → Type 0
IsNew c m = All (λ e. eqb e.1 c ≡ false) m

-- Every entry of a table is for an open connection of that name, and no name is empty.
abbrev pub IsListed : (ℕ → ClientConn) → Dict ℕ → Type 0
IsListed conns m = All (λ e. ((conns e.1).closed ≡ false) × ((conns e.1).id ≡ e.0) × (e.0 ≢ "")) m

abbrev pub changed : ℕ → (ClientConn → ClientConn) → (ℕ → ClientConn) → ℕ → ClientConn
changed c f conns k = if eqb k c then f (conns k) else conns k

pub changed-IsListed :
    (c : ℕ) (f : ClientConn → ClientConn) (conns : ℕ → ClientConn) (m : Dict ℕ)
    → IsNew c m
    → IsListed conns m
    → IsListed (changed c f conns) m
changed-IsListed c f conns [] n h = tt
changed-IsListed c f conns ((id, k) ∷ m) (apart, n) (here, h) =
    (rw apart here, changed-IsListed c f conns m n h)

-- A connection without a name is not in the table.
pub unnamed-IsNew :
    (c : ℕ) (conns : ℕ → ClientConn) (m : Dict ℕ) → (conns c).id ≡ "" → IsListed conns m → IsNew c m
unnamed-IsNew c conns [] unnamed h = tt
unnamed-IsNew c conns ((id, k) ∷ m) unnamed ((shut, name, full), h) = (
  elim (Bool-cases (eqb k c)) [
    | inl same ↦ absurd (full (sym name ∙ (ap (λ i. (conns i).id) (eq_of_eqb k c same) ∙ unnamed)))
    | inr apart ↦ apart
  ],
  unnamed-IsNew c conns m unnamed h,
)

pub insert-IsListed :
    (name : String) (c : ℕ) (conns : ℕ → ClientConn) (m : Dict ℕ)
    → (conns c).closed ≡ false
    → (conns c).id ≡ name
    → name ≢ ""
    → IsListed conns m
    → IsListed conns (insert name c m)
unfolding insert
insert-IsListed name c conns [] still named full h = ((still, named, full), tt)
insert-IsListed name c conns ((id, k) ∷ m) still named full (here, h) =
    elim (Bool-cases (id == name)) [
      | inl same ↦ rw same ((still, named, full), h)
      | inr apart ↦ rw apart (here, insert-IsListed name c conns m still named full h)
    ]

-- What is left without a connection's name does not hold the connection.
pub delete-IsNew :
    (c : ℕ) (conns : ℕ → ClientConn) (m : Dict ℕ)
    → IsListed conns m
    → IsNew c (delete (conns c).id m)
unfolding delete
delete-IsNew c conns [] h = tt
delete-IsNew c conns ((id, k) ∷ m) ((shut, name, full), h) =
    elim (Bool-cases (id == (conns c).id)) [
      | inl same ↦ rw same (delete-IsNew c conns m h)
      | inr apart ↦ rw apart (
        elim (Bool-cases (eqb k c)) [
          | inl one ↦
              let e : id ≡ (conns c).id = sym name ∙ ap (λ i. (conns i).id) (eq_of_eqb k c one) in
              ground (arith, eq_iff id (conns c).id)
          | inr two ↦ two
        ],
        delete-IsNew c conns m h,
      )
    ]

pub delete-IsListed :
    (name : String) (conns : ℕ → ClientConn) (m : Dict ℕ)
    → IsListed conns m
    → IsListed conns (delete name m)
unfolding delete
delete-IsListed name conns [] h = tt
delete-IsListed name conns ((id, k) ∷ m) (here, h) = elim (Bool-cases (id == name)) [
  | inl same ↦ rw same (delete-IsListed name conns m h)
  | inr apart ↦ rw apart (here, delete-IsListed name conns m h)
]
