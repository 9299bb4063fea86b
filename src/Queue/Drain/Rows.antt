-- ===== src/Queue/Drain/Rows.antt =====
-- How deletions and updates change the number of rows, of rows with an id and of parked rows.
use noorix_fin.Common.{
  ℕ, suc, ◌+◌, ◌≤◌, ◌≡◌, refl, ap, ◌∙◌, Bool, true, false, List, [], ◌∷◌, ◌==◌, inl, inr, arith,
  filter, length, ==_refl, if◌then◌else◌, Member,
}
use noorix_fin.Queue.{
  QueueStatus, Uuid, QueuedMutation, pending, in_flight, needs_attention, is_pending, is_parked,
  has_id, update_where, delete_id,
}
use noorix_fin.Queue.Loop.{mark_in_flight}

abbrev pub count_id : Uuid → List QueuedMutation → ℕ
count_id i rows = length (filter (has_id i) rows)

-- The primary key of the table.
abbrev pub IsKeyed : List QueuedMutation → Type 0
IsKeyed rows = (i : Uuid) → count_id i rows ≤ 1

abbrev pub count_parked : List QueuedMutation → ℕ
count_parked rows = length (filter (λ (m : QueuedMutation). is_parked m.status) rows)

pub count_id-update_where :
    (i : Uuid) (p : QueuedMutation → Bool) (f : QueuedMutation → QueuedMutation)
    → ((m : QueuedMutation) → (f m).id ≡ m.id)
    → (rows : List QueuedMutation) → count_id i (update_where p f rows) ≡ count_id i rows
count_id-update_where i p f keeps [] = refl
count_id-update_where i p f keeps (m ∷ rows) =
    ground (arith, keeps m, count_id-update_where i p f keeps rows)

pub count_id-delete_id :
    (i j : Uuid) (rows : List QueuedMutation) → count_id i (delete_id j rows) ≤ count_id i rows
count_id-delete_id i j [] = omega arith
count_id-delete_id i j (m ∷ rows) = ground (arith, count_id-delete_id i j rows)

pub length-delete_id :
    (i : Uuid) (rows : List QueuedMutation)
    → length (delete_id i rows) + count_id i rows ≡ length rows
length-delete_id i [] = refl
length-delete_id i (m ∷ rows) = ground (arith, length-delete_id i rows)

pub length-update_where :
    (p : QueuedMutation → Bool) (f : QueuedMutation → QueuedMutation) (rows : List QueuedMutation)
    → length (update_where p f rows) ≡ length rows
length-update_where p f [] = refl
length-update_where p f (m ∷ rows) = ap suc (length-update_where p f rows)

pub count_id-Member :
    (m : QueuedMutation) (rows : List QueuedMutation) → Member m rows → 1 ≤ count_id m.id rows
count_id-Member m [] found = absurd found
count_id-Member m (x ∷ rows) (inl here) =
    let same : (x.id == m.id) ≡ true = ap (λ y. y.id == m.id) here ∙ ==_refl m.id in ground arith
count_id-Member m (x ∷ rows) (inr there) = ground (arith, count_id-Member m rows there)

pending-parked : (s : QueueStatus) → is_pending s ≡ true → is_parked s ≡ false
pending-parked pending h = refl
pending-parked in_flight h = absurd (cc)
pending-parked needs_attention h = absurd (cc)

-- Rows that have another id are as they were.
deleted_absent :
    (i : Uuid) (rows : List QueuedMutation)
    → count_id i rows ≡ 0
    → count_parked (delete_id i (mark_in_flight i rows)) ≡ count_parked rows
deleted_absent i [] h = refl
deleted_absent i (x ∷ rows) h = ground (arith, deleted_absent i rows)

updated_absent :
    (i : Uuid) (g : QueuedMutation → QueuedMutation) (rows : List QueuedMutation)
    → count_id i rows ≡ 0
    → count_parked (update_where (has_id i) g (mark_in_flight i rows)) ≡ count_parked rows
updated_absent i g [] h = refl
updated_absent i g (x ∷ rows) h = ground (arith, updated_absent i g rows)

module _ (m : QueuedMutation) (is_waiting : is_pending m.status ≡ true) where
  pub deleted_claimed :
      (rows : List QueuedMutation)
      → Member m rows
      → count_id m.id rows ≤ 1
      → count_parked (delete_id m.id (mark_in_flight m.id rows)) ≡ count_parked rows
  deleted_claimed [] found h = absurd found
  deleted_claimed (x ∷ rows) (inl here) h =
      let same : (x.id == m.id) ≡ true = ap (λ y. y.id == m.id) here ∙ ==_refl m.id in
      let was : is_parked x.status ≡ false =
        ap (λ y. is_parked y.status) here ∙ pending-parked m.status is_waiting in
      ground (arith, deleted_absent m.id rows)
  deleted_claimed (x ∷ rows) (inr there) h =
      ground (arith, deleted_claimed rows there, count_id-Member m rows there)

  pub updated_claimed :
      (g : QueuedMutation → QueuedMutation) (b : Bool)
      → ((y : QueuedMutation) → is_parked (g y).status ≡ b)
      → (rows : List QueuedMutation) → Member m rows
      → count_id m.id rows ≤ 1
      → count_parked (update_where (has_id m.id) g (mark_in_flight m.id rows))
        ≡ (if b then 1 else 0) + count_parked rows
  updated_claimed g b becomes [] found h = absurd found
  updated_claimed g b becomes (x ∷ rows) (inl here) h =
      let same : (x.id == m.id) ≡ true = ap (λ y. y.id == m.id) here ∙ ==_refl m.id in
      let was : is_parked x.status ≡ false =
        ap (λ y. is_parked y.status) here ∙ pending-parked m.status is_waiting in
      let now = becomes (record x { status = in_flight }) in
      ground (arith, updated_absent m.id g rows, now)
  updated_claimed g b becomes (x ∷ rows) (inr there) h =
      ground (arith, updated_claimed g b becomes rows there, count_id-Member m rows there)
