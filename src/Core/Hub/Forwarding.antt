-- ===== src/Core/Hub/Forwarding.antt =====
-- The forwarder that `handle_subscribe` of crates/cherenkov-core/src/hub.rs spawns: its loop over what
-- its stream gives, each turn one step of the world.
use cherenkov.Prelude.{
  ◌≡◌, refl, ap, sym, ◌∙◌, none, some, List, [], ◌∷◌, ◌++◌, map, inl, inr, Option, Option-cases,
  nat_eq, beq_refl, arith,
}
use mathlib.Core.List.{append_assoc, append-nil}
use cherenkov.Prelude.Dict
use cherenkov.Prelude.Dict.{get-remove}
use cherenkov.Protocol.{Publication, ServerFrame}
use cherenkov.Core.Session.{JoinHandle}
use cherenkov.Core.Traits.{Platform}
use cherenkov.Core.Hub.World.{World, Forwarder, drop_stream}

abbrev pub to_outbox : {S : Type 0} → S → Publication → S × ServerFrame
to_outbox outbox p = (outbox, ServerFrame.publication p)

module _ {P : Platform} where
  -- The task is over, and its stream is dropped.
  unfoldable pub end_task : JoinHandle → P.broker.Stream → World P → World P
  unfolding drop_stream
  end_task task stream w = drop_stream stream (record w { tasks = Dict.remove w.tasks task })

  -- The loop, on what `stream.next()` gives turn by turn: it leaves where the stream is at its end
  -- and where `send` fails. A task that was aborted does nothing.
  unfoldable pub forward_each : JoinHandle → List (Option Publication) → World P → World P
  unfolding end_task
  forward_each task [] w = w
  forward_each task (none ∷ items) w = elim (Dict.get w.tasks task) [
    | none ↦ w
    | some f ↦ end_task task f.stream w
  ]
  forward_each task (some p ∷ items) w = elim (Dict.get w.tasks task) [
    | none ↦ w
    | some f ↦ elim (P.mpsc.send f.outbox (ServerFrame.publication p) w.mpsc) [
      | none ↦ end_task task f.stream w
      | some mpsc ↦ forward_each task items (record w { mpsc = mpsc })
    ]
  ]

  -- How a forwarder stands: it has sent all that its stream gave, and waits; or it is gone, at the end
  -- of its stream or at a closed outbox.
  pub data Standing (f : Forwarder P.broker.Stream P.mpsc.Sender) (task : JoinHandle)
      (left : List (Option Publication)) (v : World P) : Type 0 where
    waiting : left ≡ [] → Dict.get v.tasks task ≡ some f → Standing f task left v
    at_end :
        (rest : List (Option Publication))
        → left ≡ none ∷ rest
        → Dict.get v.tasks task ≡ none
        → Standing f task left v
    shut_out :
        (p : Publication) (rest : List (Option Publication))
        → left ≡ some p ∷ rest
        → P.mpsc.send f.outbox (ServerFrame.publication p) v.mpsc ≡ none
        → Dict.get v.tasks task ≡ none
        → Standing f task left v

  -- What a forwarder has done with what its stream gave.
  pub record Forwarded (task : JoinHandle) (f : Forwarder P.broker.Stream P.mpsc.Sender)
      (items : List (Option Publication)) (w v : World P) : Type 0 where
    pub delivered : List Publication
    pub left : List (Option Publication)
    pub parted : items ≡ map some delivered ++ left
    pub sent : P.mpsc.sent v.mpsc ≡ P.mpsc.sent w.mpsc ++ map (to_outbox f.outbox) delivered
    pub standing : Standing f task left v

  module _ (task : JoinHandle) (f : Forwarder P.broker.Stream P.mpsc.Sender) where
    end_task-Forwarded :
        (item : Option Publication) (items : List (Option Publication)) (w : World P)
        → Standing f task (item ∷ items) (end_task task f.stream w)
        → Forwarded task f (item ∷ items) w (end_task task f.stream w)
    unfolding end_task drop_stream
    end_task-Forwarded item items w e = record {
      delivered = [];
      left = item ∷ items;
      parted = refl;
      sent = sym (append-nil (P.mpsc.sent w.mpsc));
      standing = e;
    }

    get-end_task : (w : World P) → Dict.get (end_task task f.stream w).tasks task ≡ none
    unfolding end_task drop_stream
    get-end_task w = ground (arith, get-remove w.tasks task task, beq_refl task)

    mpsc-end_task : (w : World P) → (end_task task f.stream w).mpsc ≡ w.mpsc
    unfolding end_task drop_stream
    mpsc-end_task w = refl

    sent-Forwarded :
        (p : Publication) (items : List (Option Publication)) (m : P.mpsc.State) (w v : World P)
        → P.mpsc.send f.outbox (ServerFrame.publication p) w.mpsc ≡ some m
        → Forwarded task f items (record w { mpsc = m }) v
        → Forwarded task f (some p ∷ items) w v
    sent-Forwarded p items m w v e h = record {
      delivered = p ∷ h.delivered;
      left = h.left;
      parted = ap (◌∷◌ (some p)) h.parted;
      sent =
          h.sent
          ∙ ap (λ l. l ++ map (to_outbox f.outbox) h.delivered)
              (P.mpsc.sent-send f.outbox (ServerFrame.publication p) w.mpsc m e)
          ∙ append_assoc (P.mpsc.sent w.mpsc) (to_outbox f.outbox p ∷ [])
              (map (to_outbox f.outbox) h.delivered);
      standing = h.standing;
    }

    -- A running forwarder sends the publications that its stream gives to its outbox, in their order
    -- and none twice. Either it has sent all that the stream gave, and still runs; or it is gone,
    -- because the stream is at its end, all publications before that having been sent, or because the
    -- outbox was closed for the first publication that was not sent.
    pub forward_each-Forwarded :
        (items : List (Option Publication)) (w : World P)
        → Dict.get w.tasks task ≡ some f
        → Forwarded task f items w (forward_each task items w)
    unfolding forward_each
    forward_each-Forwarded [] w e = record {
      delivered = [];
      left = [];
      parted = refl;
      sent = sym (append-nil (P.mpsc.sent w.mpsc));
      standing = waiting refl e;
    }
    forward_each-Forwarded (none ∷ items) w e =
        rw (e, forward_each) (end_task-Forwarded none items w (at_end items refl (get-end_task w)))
    forward_each-Forwarded (some p ∷ items) w e =
        elim (Option-cases (P.mpsc.send f.outbox (ServerFrame.publication p) w.mpsc)) [
          | inl k ↦
              rw (e, k, forward_each)
                (end_task-Forwarded (some p) items w (
                  shut_out p items refl
                    (ap (P.mpsc.send f.outbox (ServerFrame.publication p)) (mpsc-end_task w) ∙ k)
                    (get-end_task w)))
          | inr (m, k) ↦
              rw (e, k, forward_each)
                (sent-Forwarded p items m w _ k
                  (forward_each-Forwarded items (record w { mpsc = m }) e))
        ]

module _ {P : Platform} where
  -- A forwarder changes neither the registry nor a session.
  pub registry-forward_each :
      (task : JoinHandle) (ps : List (Option Publication)) (w : World P)
      → ((forward_each task ps w).registry ≡ w.registry)
        × ((forward_each task ps w).store ≡ w.store)
        × ((forward_each task ps w).next_ref ≡ w.next_ref)
  unfolding forward_each end_task drop_stream
  registry-forward_each task [] w = (refl, refl, refl)
  registry-forward_each task (none ∷ ps) w = elim (Option-cases (Dict.get w.tasks task)) [
    | inl e ↦ rw (e, forward_each) (refl, refl, refl)
    | inr (f, e) ↦ rw (e, forward_each) (refl, refl, refl)
  ]
  registry-forward_each task (some p ∷ ps) w = elim (Option-cases (Dict.get w.tasks task)) [
    | inl e ↦ rw (e, forward_each) (refl, refl, refl)
    | inr (f, e) ↦ elim (Option-cases (P.mpsc.send f.outbox (ServerFrame.publication p) w.mpsc)) [
      | inl k ↦ rw (e, k, forward_each) (refl, refl, refl)
      | inr (m, k) ↦ rw (e, k, forward_each) (registry-forward_each task ps (record w { mpsc = m }))
    ]
  ]
