-- ===== src/Bridge/World.antt =====
-- The threads that use one bridge state (runtime_callback_registry.go): `withInstance`,
-- `cleanInstance`, `finishClose`, as sections under a mutex and the waits between them. A step is one
-- section of one thread, so a run is any interleaving.
use loadstrike_go.Prelude.{
  ℕ, ◌-◌, ◌≡◌, true, false, List, [], ◌∷◌, Bytes, Option, none, some, get_elem?, set, replicate,
}
use loadstrike_go.Bridge.{
  InstanceKey, Bridge, new_bridge, admit, is_admitted, complete, begin_close,
}

pub data Operation : Type 0 where
  use_instance clean_instance : Operation

-- Where a thread stands. `waiting`: counted, before `instance.mu.Lock()`. `locked`: before the second
-- section of `admitInstance`. `running`: in `invoke`. `cleaned`: after `clear`, before the section at
-- the end of `cleanInstance`. `releasing`: before `instance.mu.Unlock()`. `leaving`: before
-- `s.inFlight.Done()`.
pub data Phase : Type 0 where
  idle : Phase
  waiting : Operation → InstanceKey → ℕ → Phase
  locked : Operation → InstanceKey → ℕ → Phase
  running : Operation → InstanceKey → ℕ → Phase
  cleaned : InstanceKey → ℕ → Phase
  releasing : ℕ → Phase
  leaving : Phase

-- The thread in `finishClose`: before `beginClose`, in `inFlight.Wait()`, in the loop with the
-- instances cleared so far and those left, and after it.
pub data Closer : Type 0 where
  not_closing : Closer
  draining : List (InstanceKey × ℕ) → Closer
  clearing : List (InstanceKey × ℕ) → List ℕ → List (InstanceKey × ℕ) → Closer

pub record World (V : Type 0) : Type 0 where
  pub bridge : Bridge V
  pub threads : List Phase
  pub closer : Closer

module _ {V : Type 0} where
  unfoldable pub owner_of : Bridge V → ℕ → Option ℕ
  owner_of s a = elim (get_elem? s.instances a) [ none ↦ none | some i ↦ i.owner ]

  unfoldable pub values_of : Bridge V → ℕ → List (Bytes × V)
  values_of s a = elim (get_elem? s.instances a) [ none ↦ [] | some i ↦ i.values ]

  unfoldable pub put : Bridge V → ℕ → Option ℕ → List (Bytes × V) → Bridge V
  put s a owner values = record s {
    instances = set s.instances a (record { owner = owner; values = values });
  }

  -- A section of thread i on the bridge state: the phase before it, the phase and the state after it.
  pub data Act (i : ℕ) (s : Bridge V) : Phase → Phase → Bridge V → Type 0 where
    start :
        {op : Operation} {key : InstanceKey} {a : ℕ} {t : Bridge V}
        → admit s key ≡ some (t, a)
        → Act i s idle (waiting op key a) t
    -- A mutex is taken when nobody holds it.
    lock :
        {op : Operation} {key : InstanceKey} {a : ℕ}
        → owner_of s a ≡ none
        → Act i s (waiting op key a) (locked op key a) (put s a (some i) (values_of s a))
    accept :
        {op : Operation} {key : InstanceKey} {a : ℕ}
        → is_admitted s key a ≡ true
        → Act i s (locked op key a) (running op key a) s
    reject :
        {op : Operation} {key : InstanceKey} {a : ℕ}
        → is_admitted s key a ≡ false
        → Act i s (locked op key a) (releasing a) s
    -- What the callback does to the instance's data.
    write :
        {op : Operation} {key : InstanceKey} {a : ℕ} (values : List (Bytes × V))
        → Act i s (running op key a) (running op key a) (put s a (some i) values)
    -- `invoke` returns: from `withInstance` in any case, from `cleanInstance` with an error.
    finish :
        {op : Operation} {key : InstanceKey} {a : ℕ} → Act i s (running op key a) (releasing a) s
    -- `invoke` returns without an error in `cleanInstance`, which clears the data.
    clear :
        {key : InstanceKey} {a : ℕ}
        → Act i s (running clean_instance key a) (cleaned key a) (put s a (some i) [])
    retire : {key : InstanceKey} {a : ℕ} → Act i s (cleaned key a) (releasing a) (complete s key)
    unlock : {a : ℕ} → Act i s (releasing a) leaving (put s a none (values_of s a))
    leave : Act i s leaving idle (record s { in_flight = s.in_flight - 1 })

  pub data Step (w : World V) : World V → Type 0 where
    thread :
        {i : ℕ} {p q : Phase} {s : Bridge V}
        → get_elem? w.threads i ≡ some p
        → Act i w.bridge p q s
        → Step w (record w { bridge = s; threads = set w.threads i q })
    -- `beginClose`
    begin :
        {s : Bridge V} {detached : List (InstanceKey × ℕ)}
        → w.closer ≡ not_closing
        → begin_close w.bridge ≡ (s, some detached)
        → Step w (record w { bridge = s; closer = draining detached })
    -- `s.inFlight.Wait()` returns.
    drain :
        {detached : List (InstanceKey × ℕ)}
        → w.closer ≡ draining detached
        → w.bridge.in_flight ≡ 0
        → Step w (record w { closer = clearing detached [] detached })
    -- A round of the loop of `finishClose`: lock, clear, unlock, with no thread in between.
    clear_next :
        {detached rest : List (InstanceKey × ℕ)} {done : List ℕ} {key : InstanceKey} {a : ℕ}
        → w.closer ≡ clearing detached done ((key, a) ∷ rest)
        → owner_of w.bridge a ≡ none
        → Step w (record w {
          bridge = put w.bridge a none [];
          closer = clearing detached (a ∷ done) rest;
        })

  pub data Reach : World V → World V → Type 0 where
    here : {w : World V} → Reach w w
    next : {u v w : World V} → Step u v → Reach v w → Reach u w

  -- n threads and a new state.
  unfoldable pub initial : ℕ → World V
  unfolding new_bridge
  initial n = record { bridge = new_bridge; threads = replicate n idle; closer = not_closing }
