-- ===== src/Client/Served/Exchange.antt =====
-- bluez-async-ots/src/lib.rs, `request`, in front of a server of the list control point.
use bluetooth_ots_rs.Base.{ℕ, arith, ◌≡◌, refl, ap, ◌∙◌, List, some}
use bluetooth_ots_rs.Base.Outcome.{ok}
use bluetooth_ots_rs.Client.Host.{Host}
use bluetooth_ots_rs.Client.Served.{Serves, serve, response}
use bluetooth_ots_rs.Client.State.{OtsClient, first_value, request, next_response}
use bluetooth_ots_rs.Core.Requests.{ListReq, encode_list}
use bluetooth_ots_rs.Core.Requests.RoundTrip.{ListFits, parse_list-encode_list}

next_response-some :
    {Uuid : Type 0} (h : Host Uuid) (chr : h.CharId) (stream : h.Stream) (w w' : h.World)
    (value : List ℕ)
    → first_value h chr (h.events_until_deadline stream w).0 ≡ some value
    → (h.events_until_deadline stream w).1 ≡ w'
    → next_response h chr stream w ≡ (ok value, w')
unfolding next_response
next_response-some h chr stream w w' value p q = ground arith

module _ {Uuid : Type 0} (h : Host Uuid) (c : OtsClient h) (chr : h.CharId)
    (s : Serves h c chr) where
  -- The state behind an exchange.
  abbrev pub exchanged : List ℕ → h.World → h.World
  exchanged bytes w =
      let w1 = s.after_stream (s.after_start w) in
      s.after_stop (s.after_events (s.stream (s.after_start w)) (s.after_write bytes w1))

  pub request-response :
      (r : ListReq) (w : h.World)
      → ListFits r
      → request h c chr (encode_list r) w
        ≡ (ok (response r (s.view w)), exchanged (encode_list r) w)
  unfolding request
  request-response r w fits =
      rw
        (
          s.starts w,
          s.streams _,
          s.writes _ _,
          next_response-some h chr _ _ _ _
              (s.responds (s.stream (s.after_start w)) (encode_list r) r
                (s.after_stream (s.after_start w)) (parse_list-encode_list r fits))
              (s.events_world _ _),
          s.stops,
          s.stream_view,
          s.start_view,
        )
        refl

  pub exchanged-view :
      (r : ListReq) (w : h.World)
      → ListFits r
      → s.view (exchanged (encode_list r) w) ≡ (serve r (s.view w)).1
  exchanged-view r w fits =
      s.stop_view _
      ∙ s.events_view _ _
      ∙ s.write_view (encode_list r) r _ (parse_list-encode_list r fits)
      ∙ ap (λ v. (serve r v).1) (s.stream_view _ ∙ s.start_view w)
