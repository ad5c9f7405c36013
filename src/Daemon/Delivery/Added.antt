-- ===== src/Daemon/Delivery/Added.antt =====
-- internal/daemon/socket.go: the messages that the daemon has sent, newest first, as they grow.
use mathlib.Core.List.{◌++◌ as append}
use mathlib.Core.List
use cognitiveosd.Prelude.{ℕ, ◌≡◌, sym, ◌∙◌, ap, List, [], ◌∷◌, All}
use cognitiveosd.Protocol.{Body, Envelope}

-- The messages of the daemon name it as their sender.
abbrev pub IsOwn : ℕ × Envelope Body → Type 0
IsOwn (c, e) = e.from ≡ "cognitiveosd"

abbrev pub Adds : List (ℕ × Envelope Body) → List (ℕ × Envelope Body) → Type 0
Adds old now = (new : List (ℕ × Envelope Body)) × (now ≡ append new old) × All IsOwn new

All-append : (l m : List (ℕ × Envelope Body)) → All IsOwn l → All IsOwn m → All IsOwn (append l m)
All-append [] m h k = k
All-append (x ∷ l) m (own, h) k = (own, All-append l m h k)

pub Adds-trans : (l m n : List (ℕ × Envelope Body)) → Adds l m → Adds m n → Adds l n
Adds-trans l m n (new, e, own) (new', e', own') = (
  append new' new,
  e' ∙ (ap (append new') e ∙ sym (List.append_assoc new' new l)),
  All-append new' new own' own,
)
