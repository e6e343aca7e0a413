-- ===== src/Bridge/Sections.antt =====
-- What the sections under `s.mu` do to the instances, their mutexes and the map of them.
use loadstrike_go.Prelude.{
  ℕ, ◌+◌, ◌<◌, ◌≤◌, ◌≡◌, ◌≢◌, ◌⊎◌, inl, inr, refl, true, false, List, [], ◌∷◌, ◌++◌, Bytes, Option,
  none, some, length, get_elem?, arith, get_elem?-set_self, get_elem?-set_ne, length-set,
  get_elem?-append_left, length-append, Option-cases,
}
use loadstrike_go.Bridge.{
  InstanceKey, Instance, Bridge, lookup, contains, key_eq_iff, enter, admit, complete, begin_close,
}
use loadstrike_go.Bridge.Table.{lookup-cons, lookup-delete-some}
use loadstrike_go.Bridge.World.{owner_of, put}

module _ {V : Type 0} where
  pub owner_of-put_self :
      (s : Bridge V) (a : ℕ) (o : Option ℕ) (v : List (Bytes × V))
      → a < length s.instances
      → owner_of (put s a o v) a ≡ o
  unfolding owner_of put
  owner_of-put_self s a o v h =
      ground (arith, get_elem?-set_self s.instances a (record { owner = o; values = v }) h)

  pub owner_of-put_ne :
      (s : Bridge V) (a b : ℕ) (o : Option ℕ) (v : List (Bytes × V))
      → b ≢ a
      → owner_of (put s a o v) b ≡ owner_of s b
  unfolding owner_of put
  owner_of-put_ne s a b o v h =
      ground (arith, get_elem?-set_ne s.instances a b (record { owner = o; values = v }) h)

  pub length-put :
      (s : Bridge V) (a : ℕ) (o : Option ℕ) (v : List (Bytes × V))
      → length (put s a o v).instances ≡ length s.instances
  unfolding put
  length-put s a o v = length-set s.instances a _

  -- What the start of a thread does to the state.
  pub record IsStart (s : Bridge V) (key : InstanceKey) (t : Bridge V) (a : ℕ) : Type 0 where
    pub was_open : s.closed ≡ false
    pub still_open : t.closed ≡ false
    pub was_new : contains s.completed key ≡ false
    pub same_completed : t.completed ≡ s.completed
    pub one_more : t.in_flight ≡ s.in_flight + 1
    pub keeps : (b j : ℕ) → owner_of s b ≡ some j → owner_of t b ≡ some j
    pub grows : length s.instances ≤ length t.instances
    pub has_room :
        ((k : InstanceKey) (b : ℕ) → lookup s.active k ≡ some b → b < length s.instances)
        → a < length t.instances
    pub stays : (k : InstanceKey) (b : ℕ) → lookup s.active k ≡ some b → lookup t.active k ≡ some b
    pub added :
        (k : InstanceKey) (b : ℕ)
        → lookup t.active k ≡ some b
        → (lookup s.active k ≡ some b) ⊎ (b < length t.instances)

  owner_of-grow :
      (s : Bridge V) (b j : ℕ) (active : List (InstanceKey × ℕ)) (n : ℕ) (more : List (Instance V))
      → owner_of s b ≡ some j
      → owner_of (record s { active = active; in_flight = n; instances = s.instances ++ more }) b
        ≡ some j
  unfolding owner_of
  owner_of-grow s b j active n more h = elim (Option-cases (get_elem? s.instances b)) [
    | inl nothing ↦ absurd (ground arith)
    | inr (i, e) ↦ ground (arith, get_elem?-append_left s.instances more b e)
  ]

  -- `admit` on an instance that is there, and on one that it makes.
  enter-IsStart :
      (s : Bridge V) (key : InstanceKey) (o : Option ℕ)
      → s.closed ≡ false
      → contains s.completed key ≡ false
      → lookup s.active key ≡ o
      → IsStart s key (enter s key o).0 (enter s key o).1
  unfolding enter owner_of
  enter-IsStart s key (some a) shut new e = record {
    was_open = shut;
    still_open = shut;
    was_new = new;
    same_completed = refl;
    one_more = refl;
    keeps = λ b j h. h;
    grows = omega arith;
    has_room = λ room. room key a e;
    stays = λ k b h. h;
    added = λ k b h. inl h;
  }
  enter-IsStart s key none shut new e = record {
    was_open = shut;
    still_open = shut;
    was_new = new;
    same_completed = refl;
    one_more = refl;
    keeps =
        λ b j h. owner_of-grow s b j ((key, length s.instances) ∷ s.active) (s.in_flight + 1) _ h;
    grows = omega (arith, length-append {0});
    has_room = λ room. omega (arith, length-append {0});
    stays = λ k b h. unfold lookup in ground (arith, key_eq_iff key k);
    added = λ k b h.
        lookup-cons key k (length s.instances) b s.active _ h (omega (arith, length-append {0}));
  }

  pub admit-IsStart :
      (s t : Bridge V) (key : InstanceKey) (a : ℕ) → admit s key ≡ some (t, a) → IsStart s key t a
  unfolding admit
  admit-IsStart s t key a h =
      let o = lookup s.active key in
      let state : t ≡ (enter s key o).0 = ground arith in
      let address : a ≡ (enter s key o).1 = ground arith in
      rw (state, address) (enter-IsStart s key o (ground arith) (ground arith) refl)

  pub complete-instances :
      (s : Bridge V) (key : InstanceKey) → (complete s key).instances ≡ s.instances
  unfolding complete
  complete-instances s key = ground arith

  pub complete-active :
      (s : Bridge V) (key k : InstanceKey) (a : ℕ)
      → lookup (complete s key).active k ≡ some a
      → lookup s.active k ≡ some a
  unfolding complete
  complete-active s key k a h = ground (arith, lookup-delete-some s.active key k a)

  -- What `beginClose` does when the state was open.
  pub record IsBegun (s t : Bridge V) (detached : List (InstanceKey × ℕ)) : Type 0 where
    pub was_open : s.closed ≡ false
    pub now_closed : t.closed ≡ true
    pub no_active : t.active ≡ []
    pub no_completed : t.completed ≡ []
    pub all_detached : detached ≡ s.active
    pub same_count : t.in_flight ≡ s.in_flight
    pub same_instances : t.instances ≡ s.instances

  pub begin_close-IsBegun :
      (s t : Bridge V) (detached : List (InstanceKey × ℕ))
      → begin_close s ≡ (t, some detached)
      → IsBegun s t detached
  unfolding begin_close
  begin_close-IsBegun s t detached h = ground arith
