-- ===== src/Link/Sender.antt =====
-- What the two links have in common: a sender of CLP messages, to which things happen, and which
-- a host hears. The operations and their laws are records, which each link fills.
use pcan_alterative.Base.{
  ℕ, ◌+◌, ◌%◌, ◌^◌, ◌<◌, ◌≡◌, refl, ◌∙◌, ap, sym, subst, List, [], ◌∷◌, ◌++◌,
}
use pcan_alterative.Base.{All, All-append, map, append-nil, append_assoc, arith}
use pcan_alterative.Base.Kept.{Kept, none_left, Kept-append, Kept-All}
use pcan_alterative.Zephyr.{Wire, WireLaws}
use pcan_alterative.Clp.Parser.{Parser, clp_parser_feed}
use pcan_alterative.Clp.Parser.Stream.{
  Outgoing, FitsWire, IsIdle, received, wires, wires-append, feed-wires,
}

-- `asked` says, from the view of the sender's state, which messages an event asks it to send, and
-- what the view is then. `drops` is its counter of lost messages.
pub record Sender : Type 1 where
  pub State : Type 0
  pub View : Type 0
  pub Event : Type 0
  pub step : State → Event → State × List ℕ
  pub view : State → View
  pub asked : View → Event → View × List Outgoing
  pub drops : State → ℕ

module _ (s : Sender) where
  -- The state after some events, and the bytes that were sent in them.
  unfoldable pub run_events : s.State → List s.Event → s.State × List ℕ
  run_events u [] = (u, [])
  run_events u (e ∷ es) =
      let (u', sent) = s.step u e in let (u'', more) = run_events u' es in (u'', sent ++ more)

  pub run_events-append :
      (xs ys : List s.Event) (u : s.State)
      → run_events u (xs ++ ys) ≡ (
          let (u', sent) = run_events u xs in
          let (u'', more) = run_events u' ys in (u'', sent ++ more))
  unfolding run_events
  run_events-append [] ys u = refl
  run_events-append (x ∷ xs) ys u =
      let (u', sent) = s.step u x in
      let (u'', more) = run_events u' xs in
      let (v, last) = run_events u'' ys in
      ap (λ r. (r.0, sent ++ r.1)) (run_events-append xs ys u')
      ∙ ap (λ t. (v, t)) (sym (append_assoc sent more last))

  -- The messages that some events ask for, and the view in the end.
  abbrev pub messages_offered : s.View → List s.Event → List Outgoing
  messages_offered v [] = []
  messages_offered v (e ∷ es) = let (v', os) = s.asked v e in os ++ messages_offered v' es

  abbrev pub final : s.View → List s.Event → s.View
  final v [] = v
  final v (e ∷ es) = final (s.asked v e).0 es

-- The bytes sent and those still queued are what was queued, then the encodings of the messages in
-- the log; the log has all messages of `os` but those that the counter counts.
pub record Moves (w : Wire) (wl : WireLaws w) (s : Sender) (queue : s.State → List ℕ) (u : s.State)
    (os : List Outgoing) (v : s.View) (result : s.State × List ℕ) : Type 0 where
  pub log : List Outgoing
  pub lost : ℕ
  pub from_offered : Kept os log lost
  pub bytes : result.1 ++ queue result.0 ≡ queue u ++ wires w wl log
  pub counted : s.drops result.0 ≡ (s.drops u + lost) % 2 ^ 32
  pub seen : s.view result.0 ≡ v

-- `queue` is the bytes that wait to be sent, and `IsFine` what an event has to meet.
pub record SenderLaws (w : Wire) (wl : WireLaws w) (s : Sender) : Type 1 where
  pub queue : s.State → List ℕ
  pub IsFine : s.Event → Type 0
  pub step_moves :
      (u : s.State) (e : s.Event)
      → s.drops u < 2 ^ 32
      → IsFine e
      → let (v, os) = s.asked (s.view u) e in Moves w wl s queue u os v (s.step u e)
  pub asked_fits : (v : s.View) (e : s.Event) → All FitsWire (s.asked v e).1

module _ (w : Wire) (wl : WireLaws w) (s : Sender) (sl : SenderLaws w wl s) where
  open sl use {queue, IsFine}

  abbrev pub MovesBy : s.State → List s.Event → s.State × List ℕ → Type 0
  MovesBy u es result =
      Moves w wl s queue u (messages_offered s (s.view u) es) (final s (s.view u) es) result

  nothing_moves : (u : s.State) → s.drops u < 2 ^ 32 → MovesBy u [] (u, [])
  nothing_moves u small = record {
    log = [];
    lost = 0;
    from_offered = none_left;
    bytes = sym (append-nil (queue u));
    counted = omega arith;
    seen = refl;
  }

  then-Moves :
      (u : s.State) (e : s.Event) (es : List s.Event)
      → let (v, os) = s.asked (s.view u) e in
        let (u', sent) = s.step u e in
        Moves w wl s queue u os v (u', sent)
        → MovesBy u' es (run_events s u' es)
        → MovesBy u (e ∷ es) ((run_events s u' es).0, sent ++ (run_events s u' es).1)
  then-Moves u e es a b =
      let (v, os) = s.asked (s.view u) e in
      let (u', sent) = s.step u e in
      let (u'', more) = run_events s u' es in
      record {
        log = a.log ++ b.log;
        lost = a.lost + b.lost;
        from_offered =
            Kept-append a.from_offered
              (subst (λ t. Kept (messages_offered s t es) b.log b.lost) a.seen b.from_offered);
        bytes =
            append_assoc sent more (queue u'')
            ∙ ap (λ t. sent ++ t) b.bytes
            ∙ sym (append_assoc sent (queue u') (wires w wl b.log))
            ∙ ap (λ t. t ++ wires w wl b.log) a.bytes
            ∙ append_assoc (queue u) (wires w wl a.log) (wires w wl b.log)
            ∙ ap (λ t. queue u ++ t) (sym (wires-append w wl a.log b.log));
        counted = omega (arith, a.counted, b.counted);
        seen = b.seen ∙ ap (λ t. final s t es) a.seen;
      }

  pub run_events-MovesBy :
      (es : List s.Event) (u : s.State)
      → s.drops u < 2 ^ 32
      → All IsFine es
      → MovesBy u es (run_events s u es)
  unfolding run_events
  run_events-MovesBy [] u small h = nothing_moves u small
  run_events-MovesBy (e ∷ es) u small (h, hs) =
      let a = sl.step_moves u e small h in
      then-Moves u e es a (run_events-MovesBy es (s.step u e).0 (omega (arith, a.counted)) hs)

  offered-FitsWire : (es : List s.Event) (v : s.View) → All FitsWire (messages_offered s v es)
  offered-FitsWire [] v = tt
  offered-FitsWire (e ∷ es) v =
      All-append FitsWire (s.asked v e).1 (messages_offered s (s.asked v e).0 es)
        (sl.asked_fits v e) (offered-FitsWire es (s.asked v e).0)

  -- All that comes out of the sender: the bytes sent, and then those still queued.
  abbrev pub outcome : s.State × List ℕ → List ℕ
  outcome (u, sent) = sent ++ queue u

  -- What the host's parser has delivered, and what is missing.
  pub record Heard (u : s.State) (es : List s.Event) (host : Parser w.Decoder) : Type 0 where
    pub log : List Outgoing
    pub lost : ℕ
    pub from_offered : Kept (messages_offered s (s.view u) es) log lost
    pub all_of : (clp_parser_feed w host (outcome (run_events s u es))).1 ≡ map received log
    pub counted : s.drops (run_events s u es).0 ≡ (s.drops u + lost) % 2 ^ 32
    pub idle : IsIdle w (clp_parser_feed w host (outcome (run_events s u es))).0

  pub run_events-Heard :
      (es : List s.Event) (u : s.State) (host : Parser w.Decoder)
      → s.drops u < 2 ^ 32
      → All IsFine es
      → queue u ≡ []
      → IsIdle w host
      → Heard u es host
  run_events-Heard es u host small h before idle =
      let c = run_events-MovesBy es u small h in
      let same = c.bytes ∙ ap (λ t. t ++ wires w wl c.log) before in
      let fits = Kept-All FitsWire c.from_offered (offered-FitsWire es (s.view u)) in
      let (all, again) = feed-wires w wl c.log host idle fits in
      record {
        log = c.log;
        lost = c.lost;
        from_offered = c.from_offered;
        all_of = ap (λ t. (clp_parser_feed w host t).1) same ∙ all;
        counted = c.counted;
        idle = subst (λ t. IsIdle w (clp_parser_feed w host t).0) (sym same) again;
      }
