-- ===== src/P2p/Delivered.antt =====
-- src/networking/p2p.rs: the consensus messages that a run of the event loop delivers.
use amunchain.Base.{
  ◌+◌, ◌≤◌, ◌≡◌, ◌⊎◌, inl, inr, ◌∙◌, refl, sym, ap, List, [], ◌∷◌, ◌++◌, length, length-append,
  append_nil, append_assoc, arith,
}
use amunchain.Order.{Ord}
use amunchain.BtreeMap.{BtreeSet}
use amunchain.P2p.{
  Libp2p, P2pConfig, P2pEvent, P2pLoop, LoopEvent, Inbound, Status, running, stopped, sending_msg,
  sending_event, build_allow_set, start_loop,
}
use amunchain.P2p.Run.{
  Run, start, handled, received, observed, waiting, held, HasRoom, accepted, accepted_one,
  on_event-accepted, recv_inbound-held, recv_event-held,
}

module _ {PeerId Addr : Type 0} ⦃o : Ord PeerId⦄ (net : Libp2p PeerId Addr) where
  accepted-append :
      (allow : BtreeSet PeerId) (es : List (LoopEvent PeerId)) (e : LoopEvent PeerId)
      → accepted net allow (es ++ (e ∷ [])) ≡ accepted net allow es ++ accepted_one net allow e
  unfolding accepted
  accepted-append allow [] e = append_nil (accepted_one net allow e)
  accepted-append allow (f ∷ es) e =
      ap (λ l. accepted_one net allow f ++ l) (accepted-append allow es e)
      ∙ sym (
          append_assoc (accepted_one net allow f) (accepted net allow es)
            (accepted_one net allow e))

  -- In every run, whatever peers send and whenever messages are received, the messages received so
  -- far, then those in the channel and the one the loop waits with, are exactly the messages of
  -- allowed peers that decoded, each once and in the order of their arrival; and the channel holds
  -- at most 1024.
  pub delivered_in_order :
      {cfg : P2pConfig} {es : List (LoopEvent PeerId)} {ms : List Inbound} {vs : List P2pEvent}
      {s : P2pLoop PeerId}
      → Run net cfg es ms vs s
      → let allow = build_allow_set net cfg.allow_peers in
        (s.allow_set ≡ allow) × (ms ++ held s ≡ accepted net allow es) × HasRoom s
  unfolding start_loop accepted
  delivered_in_order (start banned invalid) = (refl, refl, omega arith)
  delivered_in_order {cfg} (handled {es} {ms} {vs} {s} e run r) =
      let (allow, all, room) = delivered_in_order run in
      let (allow', all', room') = on_event-accepted net e s r in
      let before : ms ++ s.inbound_rx ≡ accepted net (build_allow_set net cfg.allow_peers) es =
        ap (λ l. ms ++ l) (sym (append_nil s.inbound_rx) ∙ rw (r) refl) ∙ all in
      (
        allow' ∙ allow,
        ap (λ l. ms ++ l) all'
            ∙ (sym (append_assoc ms s.inbound_rx (accepted_one net s.allow_set e))
                ∙ (ap (λ l. l ++ accepted_one net s.allow_set e) before
                    ∙ (ap
                          (λ a.
                            accepted net (build_allow_set net cfg.allow_peers) es
                            ++ accepted_one net a e)
                          allow
                        ∙ sym (accepted-append (build_allow_set net cfg.allow_peers) es e)))),
        room' room,
      )
  delivered_in_order (received {es} {ms} {vs} {s} {s'} {m} run h) =
      let (allow, all, room) = delivered_in_order run in
      let (allow', all', room') = recv_inbound-held s s' m h in
      (
        allow' ∙ allow,
        append_assoc ms (m ∷ []) (held s') ∙ (ap (λ l. ms ++ l) all' ∙ all),
        room' room,
      )
  delivered_in_order (observed {es} {ms} {vs} {s} {s'} {v} run h) =
      let (allow, all, room) = delivered_in_order run in
      let (allow', all', room') = recv_event-held s s' v h in
      (allow' ∙ allow, ap (λ l. ms ++ l) all' ∙ all, room' room)

  waits :
      (status : Status)
      → (length (waiting status) ≡ 0)
        ⊎ ((x : Inbound) × (status ≡ sending_msg x) × (length (waiting status) ≡ 1))
  waits running = inl refl
  waits stopped = inl refl
  waits (sending_msg x) = inr (x, refl, refl)
  waits (sending_event v) = inl refl

  -- While nothing is received from the inbound channel, a run takes in at most 1025 consensus
  -- messages, however many peers send: at most 1024 are in the channel, or the loop waits to send
  -- one more.
  pub undrained_stalls :
      {cfg : P2pConfig} {es : List (LoopEvent PeerId)} {vs : List P2pEvent} {s : P2pLoop PeerId}
      → Run net cfg es [] vs s
      → let taken = length (accepted net (build_allow_set net cfg.allow_peers) es) in
        (taken ≤ 1024) ⊎ ((taken ≤ 1025) × ((x : Inbound) × (s.status ≡ sending_msg x)))
  undrained_stalls {cfg} {es} {vs} {s} run =
      let (_, all, room) = delivered_in_order run in
      let total : length s.inbound_rx + length (waiting s.status)
          ≡ length (accepted net (build_allow_set net cfg.allow_peers) es) =
        sym (length-append s.inbound_rx (waiting s.status)) ∙ ap (λ l. length l) all in
      elim (waits s.status) [
        | inl e ↦ inl (omega arith)
        | inr (x, e, one) ↦ inr (omega arith, (x, e))
      ]
