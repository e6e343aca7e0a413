-- ===== src/Host/Handlers/Tracking.antt =====
-- The consume branch of `handleTrackingCallback` (runtime_http_host.go) on a poll that returns at its
-- first snapshot.
use loadstrike_go.Prelude.{
  ◌≡◌, refl, true, false, [], ◌∷◌, ◌++◌, Bytes, codes, Option, some, text_eq, Result, arith,
}
use loadstrike_go.Session.{Session, ConsumeError, append, conclude, snapshot}
use loadstrike_go.Host.Handlers.{
  http_error, internal_server_error, TrackingParts, consume_reply, only_post, tracking_stage,
  handle_tracking,
}
use loadstrike_go.Host.Routes.{path_parts}

module _ {E : Type 0} where
  -- When a consumer fails after an event that no poll has fetched, the next poll takes that event and
  -- every other that waits out of the session, and the request that made the poll is answered with
  -- status 500 alone: no reply has them, and no later poll finds them.
  pub handle_tracking-failed :
      {R A : Type 0} (s : Session E) (event : E) (e : ConsumeError)
      (lookup : Bytes → Option (TrackingParts R A E)) (path id : Bytes)
      (produce : Option (R → Result Bytes A)) (body : Option R)
      → path_parts path (codes "/callbacks/tracking/") ≡ some (id, codes "consume")
      → lookup id
        ≡ some (record {
          produce = produce;
          poll = some (snapshot (conclude (append s event) (some e))).1;
        })
      → s.closed ≡ false
      → (handle_tracking lookup true path body ≡ http_error internal_server_error)
        × ((snapshot (conclude (append s event) (some e))).1.events ≡ s.messages ++ event ∷ [])
        × ((snapshot (snapshot (conclude (append s event) (some e))).0).1.events ≡ [])
  unfolding handle_tracking only_post tracking_stage consume_reply snapshot conclude append text_eq
      codes
  handle_tracking-failed s event e lookup path id produce body p l h =
      (ground (arith, p, l, h), refl, refl)
