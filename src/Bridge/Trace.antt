-- ===== src/Bridge/Trace.antt =====
-- The run of one thread of Bridge/World.antt, with the names of its sections.
use loadstrike_go.Prelude.{ℕ, ◌≡◌, List, [], ◌∷◌, Bytes, some, get_elem?, set}
use loadstrike_go.Bridge.{Bridge}
use loadstrike_go.Bridge.World.{
  World, Phase, Operation, Act, start, lock, accept, reject, write, finish, clear, retire, unlock,
  leave, Reach, here, next, thread,
}

pub data Section (V : Type 0) : Type 0 where
  starts : Operation → Section V
  locks accepts rejects finishes clears retires unlocks leaves : Section V
  writes : List (Bytes × V) → Section V

module _ {V : Type 0} where
  unfoldable pub section_of : {i : ℕ} {s t : Bridge V} {p q : Phase} → Act i s p q t → Section V
  section_of (start {op} h) = starts op
  section_of (lock h) = locks
  section_of (accept h) = accepts
  section_of (reject h) = rejects
  section_of (write values) = writes values
  section_of finish = finishes
  section_of clear = clears
  section_of retire = retires
  section_of unlock = unlocks
  section_of leave = leaves

  -- Thread i alone takes the named sections, in their order.
  pub data Trace (i : ℕ) : World V → List (Section V) → World V → Type 0 where
    done : {w : World V} → Trace i w [] w
    onward :
        {w v : World V} {p q : Phase} {s : Bridge V} {sections : List (Section V)}
        → get_elem? w.threads i ≡ some p
        → (act : Act i w.bridge p q s)
        → Trace i (record w { bridge = s; threads = set w.threads i q }) sections v
        → Trace i w (section_of act ∷ sections) v

  -- Such a run is a run of the threads.
  pub Trace-Reach :
      {i : ℕ} {w v : World V} {sections : List (Section V)} → Trace i w sections v → Reach w v
  Trace-Reach done = here
  Trace-Reach (onward h act rest) = next (thread h act) (Trace-Reach rest)
