-- ===== src/Registry/Closing.antt =====
-- What `Close` leaves: a registry in which no instance is admitted and every stream has ended.
use loadstrike_go.Prelude.{
  ◌≡◌, true, false, [], ◌∷◌, Bytes, Option, none, some, text_eq, Bool-cases, arith, Table, find,
}
use loadstrike_go.Bridge.{InstanceKey, Bridge, admit, begin_close}
use loadstrike_go.Session.{Session, shut}
use loadstrike_go.Registry.{
  Types, ScenarioRegistration, TrackingRegistration, Registry, close_scenarios, shut_stream,
  shut_streams, close, lookup_scenario, lookup_tracking, lookup_observation_cancellation,
}

begin_close-closed : {V : Type 0} (s : Bridge V) → ((begin_close s).0).closed ≡ true
unfolding begin_close
begin_close-closed s = ground arith

admit-closed :
    {V : Type 0} (s : Bridge V) (key : InstanceKey) → s.closed ≡ true → admit s key ≡ none
unfolding admit
admit-closed s key h = ground arith

shut-closed : {E : Type 0} (s : Session E) → (shut s).closed ≡ true
unfolding shut
shut-closed s = ground arith

shut_stream-closed :
    (T : Types) (stream : Option (Session (Types.Event T))) (session : Session (Types.Event T))
    → shut_stream T stream ≡ some session
    → session.closed ≡ true
shut_stream-closed T none session h = ground arith
shut_stream-closed T (some s) session h = ground (arith, shut-closed s)

module _ {T : Types} where
  open T use {Event}

  find-close_scenarios :
      (table : Table (ScenarioRegistration T)) (id : Bytes) (found : ScenarioRegistration T)
      → find (close_scenarios T table) id ≡ some found
      → (found.state).closed ≡ true
  unfolding find close_scenarios
  find-close_scenarios [] id found h = ground arith
  find-close_scenarios ((k, v) ∷ rest) id found h =
      let later = find-close_scenarios rest id found in
      ground (arith, begin_close-closed v.state, Bool-cases (text_eq k id))

  find-shut_streams :
      (table : Table (TrackingRegistration T)) (id : Bytes) (found : TrackingRegistration T)
      (session : Session Event)
      → find (shut_streams T table) id ≡ some found
      → found.consume_stream ≡ some session
      → session.closed ≡ true
  unfolding find shut_streams
  find-shut_streams [] id found session h g = ground arith
  find-shut_streams ((k, v) ∷ rest) id found session h g =
      let later = find-shut_streams rest id found session in
      ground (arith, shut_stream-closed T v.consume_stream session, Bool-cases (text_eq k id))

  -- After the first `Close`: the registry is closed, a bridge that a scenario's identifier leads to
  -- admits no instance, a stream that a consumer's identifier leads to is closed, and no
  -- observation can be canceled any more.
  pub close-quiet :
      (r : Registry T) (scenario_id consumer_id observation_id : Bytes)
      (scenario : ScenarioRegistration T) (consumer : TrackingRegistration T)
      (session : Session Event) (key : InstanceKey)
      → r.closed ≡ false
      → lookup_scenario T (close T r) scenario_id ≡ some scenario
      → lookup_tracking T (close T r) consumer_id ≡ some consumer
      → consumer.consume_stream ≡ some session
      → ((close T r).closed ≡ true)
        × (admit scenario.state key ≡ none)
        × (session.closed ≡ true)
        × (lookup_observation_cancellation T (close T r) observation_id ≡ none)
  unfolding close find
  close-quiet r scenario_id consumer_id observation_id scenario consumer session key o hs ht hc =
      let scenarios : find (close_scenarios T r.scenarios) scenario_id ≡ some scenario =
        ground arith in
      let tracking : find (shut_streams T r.tracking) consumer_id ≡ some consumer = ground arith in
      (
        ground arith,
        admit-closed scenario.state key
            (find-close_scenarios r.scenarios scenario_id scenario scenarios),
        find-shut_streams r.tracking consumer_id consumer session tracking hc,
        ground arith,
      )

  -- A second `Close` changes nothing, and none changes what is registered apart from scenarios,
  -- consumers and observation cancellations.
  pub close-idempotent :
      (r : Registry T)
      → (close T (close T r) ≡ close T r)
        × ((close T r).callbacks ≡ r.callbacks)
        × ((close T r).plugins ≡ r.plugins)
        × ((close T r).sinks ≡ r.sinks)
        × ((close T r).policies ≡ r.policies)
        × ((close T r).thresholds ≡ r.thresholds)
        × ((close T r).publishers ≡ r.publishers)
  unfolding close
  close-idempotent r = (
    ground (arith, Bool-cases r.closed),
    ground (arith, Bool-cases r.closed),
    ground (arith, Bool-cases r.closed),
    ground (arith, Bool-cases r.closed),
    ground (arith, Bool-cases r.closed),
    ground (arith, Bool-cases r.closed),
    ground (arith, Bool-cases r.closed),
  )
