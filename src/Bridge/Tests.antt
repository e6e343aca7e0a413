-- ===== src/Bridge/Tests.antt =====
-- Two threads on one key: the first cleans the instance while the second waits for its mutex.
use loadstrike_go.Prelude.{
  ℕ, ◌≡◌, ◌≢◌, refl, true, false, List, [], ◌∷◌, Bytes, codes, Option, none, some, pos, text_eq,
  Result, ok,
}
use loadstrike_go.Bridge.{
  InstanceKey, Bridge, int_eq, key_eq, lookup, contains, admit, is_admitted, begin_close,
}
use loadstrike_go.Bridge.World.{
  Phase, idle, waiting, cleaned, clean_instance, use_instance, not_closing, clearing, World,
  owner_of, values_of, put, Act, lock, accept, clear, thread, begin, drain, Reach, here, next,
  initial,
}
use loadstrike_go.Bridge.Invariant.{held_exclusive}
use loadstrike_go.Bridge.Closing.{clearing_quiet}
use loadstrike_go.Bridge.Exclusive.{callback_exclusive}
use loadstrike_go.Bridge.Retired.{retire_final}
use loadstrike_go.Bridge.Calls
use loadstrike_go.Bridge.Calls.{with_instance}
use loadstrike_go.Bridge.Trace.{Trace}
use loadstrike_go.Bridge.Calls.Retire.{is_gone}
use loadstrike_go.Bridge.Calls.Entry.{IsFree, data_of}
use loadstrike_go.Bridge.Calls.Refine.{use_sections, clean_sections, answer, calls-Trace}

abbrev key : InstanceKey
key = record {
  run_identity = codes "run";
  node_identity = codes "node";
  partition_number = pos 0;
  scenario_name = codes "checkout";
  scenario_instance_id = codes "1";
}

abbrev at_work : ℕ → Option ℕ → List (Bytes × ℕ) → Bridge ℕ
at_work n owner values = record {
  active = (key, 0) ∷ [];
  completed = [];
  closed = false;
  in_flight = n;
  instances = record { owner = owner; values = values } ∷ [];
}

abbrev cleaning : World ℕ
cleaning = record {
  bridge = at_work 2 (some 0) [];
  threads = cleaned key 0 ∷ waiting use_instance key 0 ∷ [];
  closer = not_closing;
}

-- Both threads are let in; the first takes the mutex and cleans.
Reach-cleaning : Reach (initial 2) cleaning
unfolding initial admit is_admitted owner_of values_of put key_eq text_eq int_eq lookup contains
    codes
Reach-cleaning =
    next
      (thread {i = 0} refl
        (Act.start {op = clean_instance} {key = key} {a = 0} {t = at_work 1 none []} refl))
      (next
        (thread {i = 1} refl
          (Act.start {op = use_instance} {key = key} {a = 0} {t = at_work 2 none []} refl))
        (next (thread {i = 0} refl (lock refl))
          (next (thread {i = 0} refl (accept refl)) (next (thread {i = 0} refl clear) here))))

held_exclusive_example : ◌≡◌ {A = ℕ} 0 0
held_exclusive_example =
    held_exclusive 2 0 0 0 (cleaned key 0) (cleaned key 0) Reach-cleaning refl refl refl refl

callback_exclusive_example : ◌≡◌ {A = ℕ} 0 0
callback_exclusive_example =
    callback_exclusive 2 0 0 0 0 (cleaned key 0) (cleaned key 0) key Reach-cleaning refl refl refl
      refl

-- The second thread stays outside.
retire_final_example : ◌≢◌ {A = Option (InstanceKey × ℕ)} none (some (key, 0))
retire_final_example =
    retire_final 2 0 1 0 0 (waiting use_instance key 0) key Reach-cleaning refl here refl

abbrev closing : World ℕ
closing = record {
  bridge = record { active = []; completed = []; closed = true; in_flight = 0; instances = [] };
  threads = idle ∷ [];
  closer = clearing [] [] [];
}

Reach-closing : Reach (initial {V = ℕ} 1) closing
unfolding initial begin_close
Reach-closing = next (begin refl refl) (next (drain refl refl) here)

clearing_quiet_example : ◌≡◌ {A = Phase} idle idle
clearing_quiet_example = clearing_quiet 1 0 idle Reach-closing refl refl

-- One thread uses an instance that is not there yet, and cleans it.
abbrev alone : World ℕ
alone = record {
  bridge = record { active = []; completed = []; closed = false; in_flight = 0; instances = [] };
  threads = idle ∷ [];
  closer = not_closing;
}

abbrev add_one : List (Bytes × ℕ) → List (Bytes × ℕ) × Result ℕ ℕ
add_one values = ((codes "count", 1) ∷ values, ok 1)

IsFree-alone : IsFree alone.bridge key
unfolding lookup
IsFree-alone a h = absurd (cc h)

calls-Trace_example :
    (let (values, result) = add_one (data_of alone.bridge key) in
      Trace 0 alone
        (use_sections (is_gone alone.bridge key) values)
        (record alone { bridge = (with_instance 0 0 add_one alone.bridge key).0 })
      × Trace 0 alone
          (clean_sections (is_gone alone.bridge key) values result)
          (record alone { bridge = (Calls.clean_instance 0 0 add_one alone.bridge key).0 })
      × ((with_instance 0 0 add_one alone.bridge key).1
          ≡ answer 0 (is_gone alone.bridge key) result)
      × ((Calls.clean_instance 0 0 add_one alone.bridge key).1
          ≡ answer 0 (is_gone alone.bridge key) result))
calls-Trace_example = calls-Trace alone 0 refl 0 add_one key IsFree-alone
