-- ===== src/Host/Dispatch/Calls.antt =====
-- When a reporting sink is called, and what is answered.
use loadstrike_go.Prelude.{
  ◌≡◌, ◌↔◌, ◌⊎◌, inl, inr, refl, Bool, true, false, not, ◌&&◌, Bytes, codes, Option, none, some,
  text_eq, text_eq_iff, Bool-cases, Option-cases, arith,
}
use loadstrike_go.Host.Routes.{trim_prefix}
use loadstrike_go.Host.Handlers.{no_content, only_post, found_under}
use loadstrike_go.Host.Dispatch.{
  sink_init, sink_start, save_realtime_stats, save_realtime_metrics, save_run_result,
  save_iteration_batch, complete_iteration_stream, sink_stop, sink_dispose, is_dispose, stage_of,
  Outcome, call_failed, done, returned, outcome_reply, SinkCall, sink_call, is_of_iterations,
  staged, sink_reply, handle_sink,
}

-- The stages by which requests name the calls of a sink.
unfoldable pub sink_stage_name : SinkCall → Bytes
unfolding codes
sink_stage_name sink_init = codes "init"
sink_stage_name sink_start = codes "start"
sink_stage_name save_realtime_stats = codes "saverealtimestats"
sink_stage_name save_realtime_metrics = codes "saverealtimemetrics"
sink_stage_name save_run_result = codes "saverunresult"
sink_stage_name save_iteration_batch = codes "saveiterationbatch"
sink_stage_name complete_iteration_stream = codes "completeiterationstream"
sink_stage_name sink_stop = codes "stop"
sink_stage_name sink_dispose = codes "dispose"

is_dispose_cases : (call : SinkCall) → (call ≡ sink_dispose) ⊎ (is_dispose call ≡ false)
is_dispose_cases sink_init = inr refl
is_dispose_cases sink_start = inr refl
is_dispose_cases save_realtime_stats = inr refl
is_dispose_cases save_realtime_metrics = inr refl
is_dispose_cases save_run_result = inr refl
is_dispose_cases save_iteration_batch = inr refl
is_dispose_cases complete_iteration_stream = inr refl
is_dispose_cases sink_stop = inr refl
is_dispose_cases sink_dispose = inl refl

module _ (to_lower : Bytes → Bytes) where
  sink_call-name :
      (s : Bytes) (call : SinkCall)
      → sink_call to_lower s ≡ some call
      → stage_of to_lower s ≡ sink_stage_name call
  unfolding sink_call sink_stage_name codes
  sink_call-name s call h =
      let t = stage_of to_lower s in
      ground (
        arith,
        h,
        text_eq_iff t (codes "init"),
        text_eq_iff t (codes "start"),
        text_eq_iff t (codes "saverealtimestats"),
        text_eq_iff t (codes "saverealtimemetrics"),
        text_eq_iff t (codes "saverunresult"),
        text_eq_iff t (codes "saveiterationbatch"),
        text_eq_iff t (codes "completeiterationstream"),
        text_eq_iff t (codes "stop"),
        text_eq_iff t (codes "dispose"),
      )

  name-sink_call :
      (s : Bytes) (call : SinkCall)
      → stage_of to_lower s ≡ sink_stage_name call
      → sink_call to_lower s ≡ some call
  unfolding sink_call sink_stage_name text_eq codes
  name-sink_call s sink_init e = rw (e) refl
  name-sink_call s sink_start e = rw (e) refl
  name-sink_call s save_realtime_stats e = rw (e) refl
  name-sink_call s save_realtime_metrics e = rw (e) refl
  name-sink_call s save_run_result e = rw (e) refl
  name-sink_call s save_iteration_batch e = rw (e) refl
  name-sink_call s complete_iteration_stream e = rw (e) refl
  name-sink_call s sink_stop e = rw (e) refl
  name-sink_call s sink_dispose e = rw (e) refl

module _ {R A : Type 0} (to_lower : Bytes → Bytes) (stage : R → Bytes) where
  outcome_reply_iff : (o : Outcome A) → (outcome_reply o ≡ no_content) ↔ (o ≡ done)
  unfolding outcome_reply
  outcome_reply_iff call_failed = (λ h. absurd (cc h), λ h. absurd (cc h))
  outcome_reply_iff done = (λ h. refl, λ h. refl)
  outcome_reply_iff (returned a) = (λ h. absurd (cc h), λ h. absurd (cc h))

  sink_reply_iff :
      (has_iterations : Bool) (sink : SinkCall → R → Outcome A) (r : R) (call : SinkCall)
      → (sink_reply to_lower stage has_iterations sink r call ≡ no_content) ↔ (
          (is_of_iterations call && not has_iterations ≡ false)
          × ((call ≡ sink_dispose) ⊎ (sink call r ≡ done)))
  unfolding sink_reply
  sink_reply_iff has_iterations sink r call =
      let b = Bool-cases (is_of_iterations call && not has_iterations) in
      elim (is_dispose_cases call) [
        | inl d ↦ (
          λ h. (ground (arith, h, b), inl d),
          λ (n, e). let k : is_dispose call ≡ true = rw (d) refl in ground (arith, n, k),
        )
        | inr d ↦ (
          λ h. (
            ground (arith, h, b),
            inr ((outcome_reply_iff (sink call r)).0 (ground (arith, h, b, d))),
          ),
          λ (n, e). elim e [
            | inl e ↦ let k : is_dispose call ≡ true = rw (e) refl in absurd (ground (arith, d, k))
            | inr e ↦ let k = (outcome_reply_iff (sink call r)).1 e in ground (arith, n, d, k)
          ],
        )
      ]

  -- A request to a sink is answered as done exactly where it is a POST, its path names a registered sink,
  -- its body is decoded to a request whose stage, trimmed and in lower case, is the name of a call, the
  -- sink takes iterations if the call is one for them, and the call is the one to dispose, whatever it
  -- gives, or returns without an error.
  pub handle_sink_iff :
      (lookup : Bytes → Option (Bool × (SinkCall → R → Outcome A))) (is_post : Bool) (path : Bytes)
      (body : Option R)
      → (handle_sink to_lower stage lookup is_post path body ≡ no_content) ↔ (
          (is_post ≡ true)
          × ((found : Bool × (SinkCall → R → Outcome A)) × ((r : R) × ((call : SinkCall) × ((lookup
                        (trim_prefix path (codes "/callbacks/sink/"))
                      ≡ some found)
                    × (body ≡ some r)
                    × (stage_of to_lower (stage r) ≡ sink_stage_name call)
                    × (is_of_iterations call && not found.0 ≡ false)
                    × ((call ≡ sink_dispose) ⊎ (found.1 call r ≡ done)))))))
  unfolding handle_sink only_post found_under staged codes
  handle_sink_iff lookup false path body = (λ h. absurd (cc h), λ (p, rest). absurd (cc p))
  handle_sink_iff lookup true path none = (
    λ h.
        absurd
          (ground (arith, h, Option-cases (lookup (trim_prefix path (codes "/callbacks/sink/"))))),
    λ (p, (found, (r, (call, (a, b, c, d, e))))). absurd (cc b),
  )
  handle_sink_iff lookup true path (some r) = (
    λ h. elim (Option-cases (lookup (trim_prefix path (codes "/callbacks/sink/")))) [
      | inl p ↦ absurd (ground (arith, h, p))
      | inr ((has_iterations, sink), p) ↦ elim (Option-cases (sink_call to_lower (stage r))) [
        | inl q ↦ absurd (ground (arith, h, p, q))
        | inr (call, q) ↦
            let (n, e) = (sink_reply_iff has_iterations sink r call).0 (ground (arith, h, p, q)) in
            (
              refl,
              (
                (has_iterations, sink),
                (r, (call, (p, refl, sink_call-name to_lower (stage r) call q, n, e))),
              ),
            )
      ]
    ],
    λ (p, (found, (r', (call, (a, b, c, d, e))))).
        let same : r ≡ r' = cc b in
        let k = (sink_reply_iff found.0 found.1 r call).1 (d, rw same e) in
        let q : sink_call to_lower (stage r) ≡ some call =
          rw same (name-sink_call to_lower (stage r') call c) in
        ground (arith, a, q, k),
  )
