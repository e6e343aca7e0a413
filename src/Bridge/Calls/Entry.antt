-- ===== src/Bridge/Calls/Entry.antt =====
-- What `admitInstance` finds when nobody is in between: the instance is admitted behind its mutex.
use loadstrike_go.Prelude.{
  ℕ, zero, suc, ◌≡◌, refl, ◌∙◌, true, false, ◌||◌, List, [], ◌∷◌, ◌++◌, Bytes, Option, none, some,
  get_elem?, set, length, arith, Bool-cases,
}
use loadstrike_go.Bridge.{
  InstanceKey, Instance, Bridge, admit, is_admitted, lookup, enter, contains, key_eq_refl,
}
use loadstrike_go.Bridge.World.{put, owner_of, values_of}
use loadstrike_go.Bridge.Calls.Retire.{is_gone}

module _ {V : Type 0} where
  -- The mutex of the instance that a key leads to is free.
  abbrev pub IsFree : Bridge V → InstanceKey → Type 0
  IsFree s key = (a : ℕ) → lookup s.active key ≡ some a → owner_of s a ≡ none

  owner_of-fresh :
      (instances : List (Instance V)) (values : List (Bytes × V))
      → ◌≡◌ {A = Option ℕ}
          (elim (get_elem?
            (instances ++ (record { owner = none; values = values }) ∷ [])
            (length instances)) [ none ↦ none | some i ↦ i.owner ])
          none
  owner_of-fresh [] values = refl
  owner_of-fresh (x ∷ xs) values = owner_of-fresh xs values

  enter-IsFree :
      (s : Bridge V) (key : InstanceKey) (o : Option ℕ)
      → lookup s.active key ≡ o
      → IsFree s key
      → owner_of (enter s key o).0 (enter s key o).1 ≡ none
  unfolding enter owner_of
  enter-IsFree s key (some a) e free = free a e
  enter-IsFree s key none e free = owner_of-fresh s.instances []

  admit-IsFree :
      (s t : Bridge V) (key : InstanceKey) (a : ℕ)
      → IsFree s key
      → admit s key ≡ some (t, a)
      → owner_of t a ≡ none
  unfolding admit
  admit-IsFree s t key a free h =
      let o = lookup s.active key in
      let state : t ≡ (enter s key o).0 = ground arith in
      let address : a ≡ (enter s key o).1 = ground arith in
      rw (state, address) (enter-IsFree s key o refl free)

  -- The data of the instance that a key leads to; a new instance has none.
  unfoldable pub data_of : Bridge V → InstanceKey → List (Bytes × V)
  unfolding lookup values_of
  data_of s key = elim (lookup s.active key) [ none ↦ [] | some a ↦ values_of s a ]

  kept_values :
      (xs : List (Instance V)) (a : ℕ) (o : Option ℕ)
      → ◌≡◌ {A = List (Bytes × V)}
          (elim (get_elem?
            (set xs a (record {
              owner = o;
              values = elim (get_elem? xs a) [ none ↦ [] | some x ↦ x.values ];
            }))
            a) [ none ↦ [] | some x ↦ x.values ])
          (elim (get_elem? xs a) [ none ↦ [] | some x ↦ x.values ])
  kept_values [] a o = refl
  kept_values (x ∷ xs) zero o = refl
  kept_values (x ∷ xs) (suc a) o = kept_values xs a o

  put-values_of :
      (t : Bridge V) (a : ℕ) (o : Option ℕ)
      → values_of (put t a o (values_of t a)) a ≡ values_of t a
  unfolding put values_of
  put-values_of t a o = kept_values t.instances a o

  fresh_values :
      (xs : List (Instance V))
      → ◌≡◌ {A = List (Bytes × V)}
          (elim (get_elem? (xs ++ (record { owner = none; values = [] }) ∷ []) (length xs)) [
            | none ↦ []
            | some x ↦ x.values
          ])
          []
  fresh_values [] = refl
  fresh_values (x ∷ xs) = fresh_values xs

  enter-values_of :
      (s : Bridge V) (key : InstanceKey) (o : Option ℕ)
      → values_of (enter s key o).0 (enter s key o).1
        ≡ elim o [ none ↦ [] | some a ↦ values_of s a ]
  unfolding enter values_of
  enter-values_of s key none = fresh_values s.instances
  enter-values_of s key (some a) = refl

  enter-active :
      (s : Bridge V) (key : InstanceKey) (o : Option ℕ)
      → lookup s.active key ≡ o
      → lookup ((enter s key o).0).active key ≡ some (enter s key o).1
  unfolding enter lookup
  enter-active s key none e = ground (arith, key_eq_refl key)
  enter-active s key (some a) e = e

  held-is_admitted :
      (t : Bridge V) (key : InstanceKey) (a i : ℕ)
      → t.closed ≡ false
      → contains t.completed key ≡ false
      → lookup t.active key ≡ some a
      → is_admitted (put t a (some i) (values_of t a)) key a ≡ true
  unfolding is_admitted put
  held-is_admitted t key a i closed completed active = ground (arith, closed, completed, active)

  -- An instance that a thread is let in to, with nobody in between: it is admitted behind its mutex.
  pub record IsLetIn (s t : Bridge V) (key : InstanceKey) (a i : ℕ) : Type 0 where
    pub here_still : is_gone s key ≡ false
    pub free : owner_of t a ≡ none
    pub admitted : is_admitted (put t a (some i) (values_of t a)) key a ≡ true
    pub same_data : values_of (put t a (some i) (values_of t a)) a ≡ data_of s key

  enter-open :
      (s : Bridge V) (key : InstanceKey) (o : Option ℕ)
      → ((enter s key o).0.closed ≡ s.closed) × ((enter s key o).0.completed ≡ s.completed)
  unfolding enter
  enter-open s key none = (refl, refl)
  enter-open s key (some a) = (refl, refl)

  pub admit-IsLetIn :
      (s t : Bridge V) (key : InstanceKey) (a i : ℕ)
      → IsFree s key
      → admit s key ≡ some (t, a)
      → IsLetIn s t key a i
  unfolding admit is_gone is_admitted data_of
  admit-IsLetIn s t key a i free h =
      let o = lookup s.active key in
      let open_now = Bool-cases (s.closed || contains s.completed key) in
      let state : t ≡ (enter s key o).0 = ground arith in
      let address : a ≡ (enter s key o).1 = ground arith in
      let (closed, completed) = enter-open s key o in
      let active : lookup t.active key ≡ some a = rw (state, address) (enter-active s key o refl) in
      let stored : values_of t a ≡ data_of s key = rw (state, address) (enter-values_of s key o) in
      record {
        here_still = ground (arith, h, open_now);
        free = rw (state, address) (enter-IsFree s key o refl free);
        admitted =
            held-is_admitted t key a i (ground (arith, h, open_now, state, closed))
              (ground (arith, h, open_now, state, completed)) active;
        same_data = put-values_of t a (some i) ∙ stored;
      }

  pub admit-gone_none :
      (s : Bridge V) (key : InstanceKey) → admit s key ≡ none → is_gone s key ≡ true
  unfolding admit is_gone
  admit-gone_none s key h = ground (arith, h, Bool-cases (s.closed || contains s.completed key))
