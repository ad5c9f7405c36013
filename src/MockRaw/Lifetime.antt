-- ===== src/MockRaw/Lifetime.antt =====
-- internal/testutil/rawmodel/raw_model_mock.go: `Start`, `Stop` and `acceptLoop`, and the goroutines
-- that `Stop` waits for.
use cognitiveosd.Prelude.{
  ℕ, zero, suc, ◌-◌, String, ◌≡◌, refl, Bool, true, false, Option, none, some, List, [], ◌∷◌,
  if◌then◌else◌, eqb, arith,
}
use cognitiveosd.Prelude.Result.{Result, ok, err}
use cognitiveosd.Protocol.Env.{Opened}
use cognitiveosd.MockRaw.Serving.{start_error}

-- Of a `Mock`: whether `done` is closed, the listener, if there is one, by whether it is closed, how
-- many loops accept connections, which connections are served, and whether there is a file at the
-- socket's path. The loops and the connections are what the wait group counts.
pub record Mocked : Type 0 where
  pub done : Bool
  pub listener : Option Bool
  pub loops : ℕ
  pub conns : List ℕ
  pub socket : Bool

abbrev pub unstarted : Mocked
unstarted = record { done = false; listener = none; loops = 0; conns = []; socket = false }

started : Option String → Mocked → Mocked × Option String
started (some e) m = (m, some e)
started none m = (record m { listener = some false; loops = suc m.loops; socket = true }, none)

-- `Start`
unfoldable pub start : Opened → Mocked → Mocked × Option String
unfolding started
start o m = started (start_error o) (record m { socket = false })

-- One round of `acceptLoop`, which goes on behind an error until `done` is closed.
unfoldable pub accept_one : Result ℕ → Mocked → Mocked
accept_one (ok c) m = record m { conns = c ∷ m.conns }
accept_one (err e) m = if m.done then record m { loops = m.loops - 1 } else m

without : ℕ → List ℕ → List ℕ
without c [] = []
without c (k ∷ l) = let rest = without c l in if eqb k c then l else k ∷ rest

-- The goroutine of a connection ends.
unfoldable pub leave : ℕ → Mocked → Mocked
unfolding without
leave c m = record m { conns = without c m.conns }

closed_listener : Option Bool → Option Bool
closed_listener none = none
closed_listener (some closed) = some true

-- `Stop` up to its waiting; to close `done` again panics.
unfoldable pub stop : Mocked → Option Mocked
unfolding closed_listener
stop m =
    if m.done then none else some (record m { done = true; listener = closed_listener m.listener })

waited : ℕ → List ℕ → Mocked → Option Mocked
waited zero [] m = some (record m { socket = false })
waited zero (c ∷ l) m = none
waited (suc n) l m = none

-- `Stop` from its waiting on, if nothing is left to be waited for.
unfoldable pub stop_waited : Mocked → Option Mocked
unfolding waited
stop_waited m = waited m.loops m.conns m

-- Every loop meets an error, as the listener is closed.
abbrev pub fail_all : ℕ → Mocked → Mocked
fail_all zero m = m
fail_all (suc n) m = fail_all n (accept_one (err "use of closed network connection") m)

-- Every connection ends.
abbrev pub leave_all : List ℕ → Mocked → Mocked
leave_all [] m = m
leave_all (c ∷ l) m = leave_all l (leave c m)

fail_all_lem :
    (n : ℕ) (listener : Option Bool) (conns : List ℕ) (socket : Bool)
    → fail_all n
        (record { done = true; listener = listener; loops = n; conns = conns; socket = socket })
      ≡ record { done = true; listener = listener; loops = 0; conns = conns; socket = socket }
unfolding accept_one
fail_all_lem zero listener conns socket = refl
fail_all_lem (suc n) listener conns socket =
    let less : suc n - 1 ≡ n = omega arith in rw less (fail_all_lem n listener conns socket)

leave_all_lem :
    (l : List ℕ) (listener : Option Bool) (socket : Bool)
    → leave_all l
        (record { done = true; listener = listener; loops = 0; conns = l; socket = socket })
      ≡ record { done = true; listener = listener; loops = 0; conns = []; socket = socket }
unfolding leave without
leave_all_lem [] listener socket = refl
leave_all_lem (c ∷ l) listener socket =
    let same : eqb c c ≡ true = ground arith in rw same (leave_all_lem l listener socket)

-- `Stop` on a mock that has not been stopped goes on to wait, and its waiting ends, however many loops
-- and connections there are: each loop ends with the error of its next round, and when the connections
-- have ended too, `Stop` returns, with no goroutine and no file of the socket left. A second
-- `Stop` panics.
pub stop-ends :
    (m : Mocked)
    → m.done ≡ false
    → (m' : Mocked) × (stop m ≡ some m')
      × (stop_waited (leave_all m'.conns (fail_all m'.loops m'))
          ≡ some (record m' { loops = 0; conns = []; socket = false }))
      × (stop m' ≡ none)
unfolding stop stop_waited
stop-ends m h = (
  record m { done = true; listener = closed_listener m.listener },
  rw h refl,
  (rw
      (
        fail_all_lem m.loops (closed_listener m.listener) m.conns m.socket,
        leave_all_lem m.conns (closed_listener m.listener) m.socket,
      )
      refl),
  refl,
)
