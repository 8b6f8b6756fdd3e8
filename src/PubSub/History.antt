-- ===== src/PubSub/History.antt =====
-- The history of crates/cherenkov-channel-pubsub/src/lib.rs as the end of a log: what `evict` and
-- `trim` remove, and what a publication adds.
use cherenkov.Prelude.{
  Bool, Bool-cases, inl, inr, ltb, leb, subst, ℕ, suc, ◌+◌, ◌-◌, ◌≤◌, ◌<◌, ◌≡◌, refl, List, [], ◌∷◌,
  ◌++◌, arith, length, filter, length-append,
}
use cherenkov.Prelude.Suffix.{
  All, IsSuffix, IsSuffix-refl, IsSuffix-cons, IsSuffix-trans, IsSuffix-append, All-append,
}
use cherenkov.Protocol.{Bytes}
use cherenkov.PubSub.{
  HistoryEntry, ChannelState, PubSubChannel, evict, trim, evict_expired, append, u64_max,
}

-- The offsets count up from `n`.
abbrev pub Numbered : ℕ → List HistoryEntry → Type 0
Numbered n [] = Unit {0}
Numbered n (e ∷ es) = (e.offset ≡ n) × Numbered (suc n) es

-- The times never fall, and none is after `now`.
abbrev pub Timed : ℕ → List HistoryEntry → Type 0
Timed now [] = Unit {0}
Timed now (e ∷ es) =
    (e.inserted_at ≤ now) × All (λ f. e.inserted_at ≤ f.inserted_at) es × Timed now es

abbrev pub IsStale : ℕ → ℕ → HistoryEntry → Type 0
IsStale ttl now e = ttl < now - e.inserted_at

abbrev pub IsFresh : ℕ → ℕ → HistoryEntry → Type 0
IsFresh ttl now e = now - e.inserted_at ≤ ttl

-- `log` holds every publication of a channel, and the state keeps its end.
pub record Represents (log : List HistoryEntry) (s : ChannelState) : Type 0 where
  pub counted : s.next_offset ≡ length log
  pub numbered : Numbered 0 log
  pub recent : IsSuffix s.entries log

Numbered-append :
    (n : ℕ) (xs : List HistoryEntry) (e : HistoryEntry)
    → Numbered n xs
    → e.offset ≡ n + length xs
    → Numbered n (xs ++ e ∷ [])
Numbered-append n [] e h p = (omega arith, tt)
Numbered-append n (x ∷ xs) e h p = (h.0, Numbered-append (suc n) xs e h.1 (omega arith))

pub evict-IsSuffix : (ttl now : ℕ) (xs : List HistoryEntry) → IsSuffix (evict ttl now xs) xs
unfolding evict
evict-IsSuffix ttl now [] = IsSuffix-refl []
evict-IsSuffix ttl now (e ∷ es) =
    ground (arith, IsSuffix-cons e (evict-IsSuffix ttl now es), IsSuffix-refl (e ∷ es))

pub trim-IsSuffix : (size : ℕ) (xs : List HistoryEntry) → IsSuffix (trim size xs) xs
unfolding trim
trim-IsSuffix size [] = IsSuffix-refl []
trim-IsSuffix size (e ∷ es) =
    ground (arith, IsSuffix-cons e (trim-IsSuffix size es), IsSuffix-refl (e ∷ es))

pub length-trim-le : (size : ℕ) (xs : List HistoryEntry) → length (trim size xs) ≤ size
unfolding trim
length-trim-le size [] = omega arith
length-trim-le size (e ∷ es) = ground (arith, length-trim-le size es)

pub length-trim : (size : ℕ) (xs : List HistoryEntry) → length xs ≤ size → trim size xs ≡ xs
unfolding trim
length-trim size [] h = refl
length-trim size (e ∷ es) h = ground arith

-- `trim` pops from the front: what is at the end stays, if there is room for one entry.
pub trim-append :
    (size : ℕ) (xs : List HistoryEntry) (e : HistoryEntry)
    → 0 < size
    → (ys : List HistoryEntry) × (trim size (xs ++ e ∷ []) ≡ ys ++ e ∷ []) × IsSuffix ys xs
unfolding trim
trim-append size [] e h = ([], ground arith, IsSuffix-refl [])
trim-append size (x ∷ xs) e h = elim (Bool-cases (ltb size (length (x ∷ (xs ++ e ∷ []))))) [
  | inl k ↦ let (ys, same, last) = trim-append size xs e h in (ys, rw k same, IsSuffix-cons x last)
  | inr k ↦ (x ∷ xs, rw k refl, IsSuffix-refl (x ∷ xs))
]

abbrev pub is_fresh : ℕ → ℕ → HistoryEntry → Bool
is_fresh ttl now e = leb (now - e.inserted_at) ttl

-- What comes after a fresh entry is fresh.
filter-fresh :
    (ttl now at : ℕ) (es : List HistoryEntry)
    → now - at ≤ ttl
    → All (λ f. at ≤ f.inserted_at) es
    → filter (is_fresh ttl now) es ≡ es
filter-fresh ttl now at [] h later = refl
filter-fresh ttl now at (e ∷ es) h later =
    ground (arith, filter-fresh ttl now at es h later.1, later.0)

-- On a history in order of time, popping stale entries from the front keeps exactly the entries
-- whose age is within the limit.
pub evict-eq-filter :
    (ttl now : ℕ) (es : List HistoryEntry)
    → Timed now es
    → evict ttl now es ≡ filter (is_fresh ttl now) es
unfolding evict
evict-eq-filter ttl now [] h = refl
evict-eq-filter ttl now (e ∷ es) (at, later, rest) =
    ground (arith, evict-eq-filter ttl now es rest, filter-fresh ttl now e.inserted_at es)

-- A publication in an untouched or recorded channel extends the log by one entry, whose offset is the
-- number of publications before it.
pub append-Represents :
    (k : PubSubChannel) (now : ℕ) (payload : Bytes) (log : List HistoryEntry) (s : ChannelState)
    → length log < u64_max
    → Represents log s
    → Represents
        (log ++ record { inserted_at = now; offset = length log; payload = payload } ∷ [])
        (append k now payload s)
unfolding append
append-Represents k now payload log s room h = record {
  counted = ground (arith, h.counted, length-append log (entry (length log) ∷ []));
  numbered = Numbered-append 0 log (entry (length log)) h.numbered (omega arith);
  recent =
      subst
        (λ n.
          IsSuffix (trim k.history_size (kept ++ entry s.next_offset ∷ [])) (log ++ entry n ∷ []))
        h.counted
        (IsSuffix-trans (trim-IsSuffix k.history_size (kept ++ entry s.next_offset ∷ [])) (
          IsSuffix-append (entry s.next_offset ∷ [])
            (IsSuffix-trans (evict-IsSuffix k.history_ttl now s.entries) h.recent)));
}
  where
    entry : ℕ → HistoryEntry
    entry n = record { inserted_at = now; offset = n; payload = payload }

    kept : List HistoryEntry
    kept = evict k.history_ttl now s.entries

-- Dropping stale entries loses no number of the log.
pub evict_expired-Represents :
    (k : PubSubChannel) (now : ℕ) (log : List HistoryEntry) (s : ChannelState)
    → Represents log s
    → Represents log (evict_expired k now s)
unfolding evict_expired
evict_expired-Represents k now log s h = record {
  counted = h.counted;
  numbered = h.numbered;
  recent = IsSuffix-trans (evict-IsSuffix k.history_ttl now s.entries) h.recent;
}

All-le_trans :
    (a b : ℕ) (es : List HistoryEntry)
    → a ≤ b
    → All (λ f. b ≤ f.inserted_at) es
    → All (λ f. a ≤ f.inserted_at) es
All-le_trans a b [] h k = tt
All-le_trans a b (e ∷ es) h k = (omega arith, All-le_trans a b es h k.1)

Timed-append :
    (now later : ℕ) (es : List HistoryEntry) (e : HistoryEntry)
    → now ≤ later
    → e.inserted_at ≡ later
    → Timed now es
    → Timed later (es ++ e ∷ [])
Timed-append now later [] e h p t = (omega arith, tt, tt)
Timed-append now later (x ∷ xs) e h p (at, after, rest) = (
  omega arith,
  All-append (λ f. x.inserted_at ≤ f.inserted_at) xs (e ∷ []) after (omega arith, tt),
  Timed-append now later xs e h p rest,
)

Timed-suffix :
    (now : ℕ) (front es xs : List HistoryEntry) → xs ≡ front ++ es → Timed now xs → Timed now es
Timed-suffix now [] es xs e t = subst (Timed now) e t
Timed-suffix now (f ∷ front) es xs e t =
    Timed-suffix now front es (front ++ es) refl (subst (Timed now) e t).2

-- A publication at a time that is not before the ones recorded keeps the order of time.
pub append-Timed :
    (k : PubSubChannel) (now later : ℕ) (payload : Bytes) (s : ChannelState)
    → now ≤ later
    → Timed now s.entries
    → Timed later (append k later payload s).entries
unfolding append
append-Timed k now later payload s h t =
    Timed-suffix later trimmed.front _ _ trimmed.split
      (Timed-append now later kept _ h refl (Timed-suffix now old.front kept s.entries old.split t))
  where
    kept : List HistoryEntry
    kept = evict k.history_ttl later s.entries

    old : IsSuffix kept s.entries
    old = evict-IsSuffix k.history_ttl later s.entries

    entry : HistoryEntry
    entry = record { inserted_at = later; offset = s.next_offset; payload = payload }

    trimmed : IsSuffix (trim k.history_size (kept ++ entry ∷ [])) (kept ++ entry ∷ [])
    trimmed = trim-IsSuffix k.history_size (kept ++ entry ∷ [])
