-- ===== src/Examples/Toy.antt =====
-- A broadcast channel, outboxes and a platform with concrete functions in place of `tokio`.
use cherenkov.Prelude.{
  ℕ, zero, suc, ◌-◌, ◌≤◌, ◌<◌, ◌≡◌, refl, ap, ◌∙◌, Option, none, some, List, [], ◌∷◌, ◌++◌, arith,
  ◌==◌, nat_eq, if◌then◌else◌, length, drop,
}
use cherenkov.Protocol.{Publication, ServerFrame}
use cherenkov.Core.Traits.{Mpsc, Platform}
use cherenkov.PubSub.{pubsub_kind}
use cherenkov.MemoryBroker.{Broadcast, memory_broker}

-- All that was sent, and how many receivers there are. A receiver is where it starts to read.
pub record Tape : Type 0 where
  pub size : ℕ
  pub log : List Publication
  pub receivers : ℕ

abbrev pub send_tape : Publication → Tape → Option Tape
send_tape p c = if c.receivers == 0 then none else some (record c { log = c.log ++ p ∷ [] })

pub drop-append_one :
    (n : ℕ) (xs : List Publication) (p : Publication)
    → n ≤ length xs
    → drop n (xs ++ p ∷ []) ≡ drop n xs ++ p ∷ []
drop-append_one zero xs p h = refl
drop-append_one (suc n) [] p h = elim h [ ]
drop-append_one (suc n) (x ∷ xs) p h = drop-append_one n xs p (omega arith)

pub drop_all : (xs : List Publication) → drop (length xs) xs ≡ []
drop_all [] = refl
drop_all (x ∷ xs) = drop_all xs

pub send_tape-some :
    (p : Publication) (c : Tape) → 0 < c.receivers → (d : Tape) × (send_tape p c ≡ some d)
send_tape-some p c h = (record c { log = c.log ++ p ∷ [] }, ground arith)

pub send_tape-none : (p : Publication) (c : Tape) → c.receivers ≡ 0 → send_tape p c ≡ none
send_tape-none p c e = ground arith

pub send_tape_log :
    (p : Publication) (c d : Tape) → send_tape p c ≡ some d → d.log ≡ c.log ++ p ∷ []
send_tape_log p c d e = ground arith

abbrev pub tapes : Broadcast
tapes = record {
  Channel = Tape;
  Receiver = ℕ;
  create = λ n. record { size = n; log = []; receivers = 0 };
  subscribe = λ c. (length c.log, record c { receivers = suc c.receivers });
  send = send_tape;
  receiver_count = λ c. c.receivers;
  drop_receiver = λ r c. record c { receivers = c.receivers - 1 };
  IsActive = λ r c. (0 < c.receivers) × (r ≤ length c.log);
  pending = λ r c. drop r c.log;
  capacity = λ c. c.size;
  receiver_count-create = λ n. refl;
  receiver_count-subscribe = λ c. refl;
  send-eq_none = send_tape-none;
  send_some = send_tape-some;
  IsActive-subscribe = λ c. (omega arith, omega arith);
  pending-subscribe = λ c. drop_all c.log;
  IsActive-pos = λ r c h. h.0;
  pending-send =
      λ p c d r h room e. ap (drop r) (send_tape_log p c d e) ∙ drop-append_one r c.log p h.1;
}

-- The outboxes: what was sent, and one address, 99, whose receiver is gone.
abbrev pub send_frame : ℕ → ServerFrame → List (ℕ × ServerFrame) → Option (List (ℕ × ServerFrame))
send_frame to frame s = if to == 99 then none else some (s ++ (to, frame) ∷ [])

pub sent-send_frame :
    (to : ℕ) (frame : ServerFrame) (s t : List (ℕ × ServerFrame))
    → send_frame to frame s ≡ some t
    → t ≡ s ++ (to, frame) ∷ []
sent-send_frame to frame s t e = ground arith

abbrev pub outboxes : Mpsc
outboxes = record {
  Sender = ℕ;
  State = List (ℕ × ServerFrame);
  send = send_frame;
  sent = λ s. s;
  sent-send = sent-send_frame;
}

abbrev pub toy : Platform
toy = record { kinds = pubsub_kind; broker = memory_broker tapes; mpsc = outboxes }

abbrev pub no_tape : Tape
no_tape = record { size = 0; log = []; receivers = 0 }
