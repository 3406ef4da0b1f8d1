-- ===== src/RuntimeStore/EventReads/Cursor.antt =====
-- A reader that follows the cursor misses no event.
use mathlib.Core.Path.{subst}
use tsagent.Prelude.{
  ℕ, suc, ◌+◌, ◌<◌, ◌≤◌, String, ◌≡◌, Bool, Option, none, some, List, [], ◌∷◌, ◌++◌, refl, arith,
  ◌&&◌, ltb, map, Bool-cases, inl, inr, ◌⊎◌, ◌∙◌, ap, sym, zero,
}
use tsagent.Prelude.Int.{ℤ, pos}
use tsagent.Prelude.Lists.{select, length}
use tsagent.Prelude.Result.{ok}
use tsagent.Prelude.Text.{strip}
use tsagent.RuntimeStore.Tables.{SqliteRuntimeStore, EventRow, DurableEventRecord, event_of}
use tsagent.RuntimeStore.Logs.EventLogs.{
  EventLog, start, next, events_of, HasLogs, latest_sequence_of,
}
use tsagent.RuntimeStore.Transaction.{require_text}
use tsagent.RuntimeStore.EventReads.{
  insert_by_number, order_by_number, take, limited, rows_after, read_events,
}

-- Events numbered from a number on
abbrev pub Numbered : ℕ → List EventRow → Type 0
Numbered k [] = Unit
Numbered k (e ∷ es) = (e.event.sequence_number ≡ k) × Numbered (suc k) es

Numbered-append :
    (k : ℕ) (es : List EventRow) (e : EventRow)
    → Numbered k es
    → e.event.sequence_number ≡ k + length es
    → Numbered k (es ++ e ∷ [])
Numbered-append k [] e h q = (omega arith, tt)
Numbered-append k (x ∷ es) e (h, hs) q = (h, Numbered-append (suc k) es e hs (omega arith))

insert-first :
    (k : ℕ) (e : EventRow) (es : List EventRow)
    → e.event.sequence_number ≡ k
    → Numbered (suc k) es
    → insert_by_number e es ≡ e ∷ es
unfolding insert_by_number
insert-first k e [] q h = refl
insert-first k e (f ∷ es) q (h, hs) = ground arith

-- Numbered events are in order.
Numbered-order : (k : ℕ) (es : List EventRow) → Numbered k es → order_by_number es ≡ es
unfolding order_by_number
Numbered-order k [] h = refl
Numbered-order k (e ∷ es) (h, hs) =
    ap (insert_by_number e) (Numbered-order (suc k) es hs) ∙ insert-first k e es h hs

length-last : {A : Type 0} (xs : List A) (x : A) → length (xs ++ x ∷ []) ≡ suc (length xs)
length-last [] x = refl
length-last (y ∷ xs) x = ap suc (length-last xs x)

-- Nothing of what lies behind the cursor is left out,
select-above :
    (a k : ℕ) (es : List EventRow)
    → a < k
    → Numbered k es
    → select (λ e. ltb a e.event.sequence_number) es ≡ es
unfolding select
select-above a k [] l h = refl
select-above a k (e ∷ es) l (h, hs) = ground (arith, select-above a (suc k) es (omega arith) hs)

-- and nothing else is read.
Numbered-select :
    (a k : ℕ) (es : List EventRow)
    → k ≤ suc a
    → suc a ≤ k + length es
    → Numbered k es
    → Numbered (suc a) (select (λ e. ltb a e.event.sequence_number) es)
      × (suc a + length (select (λ e. ltb a e.event.sequence_number) es) ≡ k + length es)
unfolding select
Numbered-select a k [] l m h = (tt, omega arith)
Numbered-select a k (e ∷ es) l m (h, hs) = elim (Bool-cases (ltb a k)) [
  | inl q ↦
      let all = select-above a k (e ∷ es) (ground arith) (h, hs) in
      let first : k ≡ suc a = ground arith in
      (
        subst (λ xs. Numbered (suc a) xs) (sym all)
            (subst (λ n. Numbered n (e ∷ es)) first (h, hs)),
        ap (λ xs. suc a + length xs) all ∙ ap (λ n. n + length (e ∷ es)) (sym first),
      )
  | inr q ↦
      let (n, c) = Numbered-select a (suc k) es (ground arith) (omega arith) hs in
      let skipped : select (λ x. ltb a x.event.sequence_number) (e ∷ es)
          ≡ select (λ x. ltb a x.event.sequence_number) es =
        ground arith in
      (
        subst (λ xs. Numbered (suc a) xs) (sym skipped) n,
        ap (λ xs. suc a + length xs) skipped ∙ c ∙ omega arith,
      )
]

Numbered-take :
    (k n : ℕ) (es : List EventRow)
    → Numbered k es
    → Numbered k (take n es) × ((take n es ≡ es) ⊎ (length (take n es) ≡ n))
unfolding take
Numbered-take k zero es h = (tt, inr refl)
Numbered-take k (suc n) [] h = (tt, inl refl)
Numbered-take k (suc n) (e ∷ es) (h, hs) =
    let (m, c) = Numbered-take (suc k) n es hs in
    ((h, m), elim c [ inl q ↦ inl (ap (λ xs. e ∷ xs) q) | inr q ↦ inr (ap suc q) ])

select-both :
    {A : Type 0} (p q : A → Bool) (xs : List A)
    → select (λ x. p x && q x) xs ≡ select q (select p xs)
unfolding select
select-both p q [] = refl
select-both p q (x ∷ xs) = ground (arith, select-both p q xs)

-- The numbers of the events of a list, and those from one on
abbrev pub numbers : List DurableEventRecord → List ℕ
numbers [] = []
numbers (e ∷ es) = e.sequence_number ∷ numbers es

abbrev pub count_from : ℕ → ℕ → List ℕ
count_from k zero = []
count_from k (suc n) = k ∷ count_from (suc k) n

Numbered-numbers :
    (k : ℕ) (es : List EventRow)
    → Numbered k es
    → numbers (map (λ e. e.event) es) ≡ count_from k (length (map (λ e. e.event) es))
Numbered-numbers k [] h = refl
Numbered-numbers k (e ∷ es) (h, hs) = ground (arith, Numbered-numbers (suc k) es hs)

EventLog-Numbered :
    {es : List EventRow} {n : ℕ} {latest : Option String}
    → EventLog es n latest
    → Numbered 1 es × (length es ≡ n)
EventLog-Numbered start = (tt, refl)
EventLog-Numbered (next {es} {n} e l q f) =
    let (h, c) = EventLog-Numbered l in
    (Numbered-append 1 es e h (omega arith), length-last es e ∙ ap suc c)

-- What is read behind a cursor that is not ahead of the log
abbrev pub Complete : ℕ → Option ℕ → ℕ → List DurableEventRecord → Type 0
Complete after limit latest es =
    (numbers es ≡ count_from (suc after) (length es))
    × ((after + length es ≡ latest) ⊎ (some (length es) ≡ limit))

length-event : (es : List EventRow) → length (map (λ e. e.event) es) ≡ length es
length-event [] = refl
length-event (e ∷ es) = ap suc (length-event es)

limited-Complete :
    (after latest : ℕ) (limit : Option ℕ) (es : List EventRow)
    → Numbered (suc after) es
    → after + length es ≡ latest
    → Complete after limit latest (map (λ e. e.event) (limited limit es))
limited-Complete after latest none es h c =
    (Numbered-numbers (suc after) es h, inl (ap (λ n. after + n) (length-event es) ∙ c))
limited-Complete after latest (some n) es h c =
    let (m, d) = Numbered-take (suc after) n es h in
    (
      Numbered-numbers (suc after) (take n es) m,
      elim d [
        | inl q ↦ inl (ap (λ k. after + k) (length-event (take n es) ∙ ap length q) ∙ c)
        | inr q ↦ inr (ap some (length-event (take n es) ∙ q))
      ],
    )

rows_after-Complete :
    (tenant run : String) (after latest : ℕ) (limit : Option ℕ) (rows : List EventRow)
    {kind : Option String}
    → EventLog (events_of tenant run rows) latest kind
    → after ≤ latest
    → Complete after limit latest (map (λ e. e.event) (rows_after tenant run after limit rows))
rows_after-Complete tenant run after latest limit rows log m =
    let (h, c) = EventLog-Numbered log in
    let (n, d) =
      Numbered-select after 1 (events_of tenant run rows) (omega arith) (omega arith) h in
    let both = select-both (event_of tenant run) (λ e. ltb after e.event.sequence_number) rows in
    let ordered =
      ap order_by_number both
      ∙ Numbered-order (suc after)
          (select (λ e. ltb after e.event.sequence_number) (events_of tenant run rows)) n in
    subst (λ xs. Complete after limit latest (map (λ e. e.event) (limited limit xs))) (sym ordered)
      (limited-Complete after latest limit
        (select (λ e. ltb after e.event.sequence_number) (events_of tenant run rows)) n
        (omega arith))

-- An optional limit as the argument of the method
abbrev pub as_int : Option ℕ → Option ℤ
as_int none = none
as_int (some n) = some (pos n)

read_events-rows :
    (s : SqliteRuntimeStore) (tenant run session : String) (after : ℕ) (limit : Option ℕ)
    (es : List DurableEventRecord)
    → after ≤ latest_sequence_of (strip tenant) (strip run) s.database.run_event_heads
    → read_events s tenant run session (pos after) (as_int limit) ≡ ok es
    → es
      ≡ map (λ e. e.event) (rows_after (strip tenant) (strip run) after limit s.database.run_events)
unfolding read_events require_text
read_events-rows s tenant run session after none es m h = ground arith
read_events-rows s tenant run session after (some zero) es m h = ground arith
read_events-rows s tenant run session after (some (suc n)) es m h = ground arith

-- A reader that follows the cursor misses nothing and reads nothing twice: when the events of a store
-- are logged, as every store reached by calls has them, and the cursor is not ahead of the
-- `latest_sequence` of the Run, the events read are numbered from the one behind the cursor on
-- without a gap, and there are as many as the limit allows, or all up to `latest_sequence`.
pub read_events-Complete :
    (s : SqliteRuntimeStore) (tenant run session : String) (after : ℕ) (limit : Option ℕ)
    (es : List DurableEventRecord)
    → HasLogs s.database
    → after ≤ latest_sequence_of (strip tenant) (strip run) s.database.run_event_heads
    → read_events s tenant run session (pos after) (as_int limit) ≡ ok es
    → Complete after limit
        (latest_sequence_of (strip tenant) (strip run) s.database.run_event_heads)
        es
read_events-Complete s tenant run session after limit es logs m h =
    let t = strip tenant in
    let r = strip run in
    let latest = latest_sequence_of t r s.database.run_event_heads in
    let (kind, log) = logs t r in
    let all = rows_after-Complete t r after latest limit s.database.run_events log m in
    subst (λ xs. Complete after limit latest xs)
      (sym (read_events-rows s tenant run session after limit es m h)) all
