-- ===== src/Sessions/Listing.antt =====
-- What a user is shown of the sessions.
use effect_auth.Prelude.{
  ℕ, ◌≡◌, ◌↔◌, ◌≤◌, ap, subst, inl, inr, true, false, List, [], ◌∷◌, Memᴰ, Text, text_eq,
  text_eq_iff, arith, ◌<◌, All, filter, Bool-cases, memᴰ_of_filter, memᴰ-filter,
}
use effect_auth.Runtime.{World, Session, ok}
use effect_auth.Runtime.Steps.{ok_injective}
use effect_auth.Sessions.Store.{
  stands_before, insert_ordered, newest_first, is_listed, select_listed, list_by_user_id,
}
use effect_auth.Sessions.Service

abbrev pub Descending : List Session → Type 0
Descending [] = Unit
Descending (r ∷ rows) = All (λ (q : Session). q.created_at ≤ r.created_at) rows × Descending rows

stands_before-created_at : (s r : Session) → stands_before s r ≡ true → r.created_at ≤ s.created_at
unfolding stands_before
stands_before-created_at s r h = ground (arith, h)

stands_after-created_at : (s r : Session) → stands_before s r ≡ false → s.created_at ≤ r.created_at
unfolding stands_before
stands_after-created_at s r h = ground (arith, h)

All-le :
    (n m : ℕ) (rows : List Session)
    → n ≤ m
    → All (λ (q : Session). q.created_at ≤ n) rows
    → All (λ (q : Session). q.created_at ≤ m) rows
All-le n m [] h a = tt
All-le n m (r ∷ rows) h a = (omega (arith, h, a.0), All-le n m rows h a.1)

insert_ordered-All :
    (n : ℕ) (s : Session) (rows : List Session)
    → s.created_at ≤ n
    → All (λ (q : Session). q.created_at ≤ n) rows
    → All (λ (q : Session). q.created_at ≤ n) (insert_ordered s rows)
unfolding insert_ordered
insert_ordered-All n s [] h a = (h, tt)
insert_ordered-All n s (r ∷ rows) h a = elim (Bool-cases (stands_before s r)) [
  | inl e ↦ rw e (h, a)
  | inr e ↦ rw e (a.0, insert_ordered-All n s rows h a.1)
]

insert_ordered-Descending :
    (s : Session) (rows : List Session) → Descending rows → Descending (insert_ordered s rows)
unfolding insert_ordered
insert_ordered-Descending s [] d = (tt, tt)
insert_ordered-Descending s (r ∷ rows) d = elim (Bool-cases (stands_before s r)) [
  | inl e ↦
      rw e
        ((stands_before-created_at s r e, All-le _ _ rows (stands_before-created_at s r e) d.0), d)
  | inr e ↦ rw e (
    insert_ordered-All r.created_at s rows (stands_after-created_at s r e) d.0,
    insert_ordered-Descending s rows d.1,
  )
]

newest_first-Descending : (rows : List Session) → Descending (newest_first rows)
unfolding newest_first
newest_first-Descending [] = tt
newest_first-Descending (s ∷ rows) =
    insert_ordered-Descending s (newest_first rows) (newest_first-Descending rows)

memᴰ_of_insert_ordered :
    (s r : Session) (rows : List Session) → Memᴰ r (insert_ordered s rows) → Memᴰ r (s ∷ rows)
unfolding insert_ordered
memᴰ_of_insert_ordered s r [] m = m
memᴰ_of_insert_ordered s r (q ∷ rows) m = elim (Bool-cases (stands_before s q)) [
  | inl e ↦ rw e at m
  | inr e ↦ later (memᴰ_of_insert_ordered s r rows) (rw e at m)
]
  where
    swap : Memᴰ r (s ∷ rows) → Memᴰ r (s ∷ q ∷ rows)
    swap (Memᴰ.head e) = Memᴰ.head e
    swap (Memᴰ.tail u) = Memᴰ.tail (Memᴰ.tail u)

    later :
        (Memᴰ r (insert_ordered s rows) → Memᴰ r (s ∷ rows))
        → Memᴰ r (q ∷ insert_ordered s rows)
        → Memᴰ r (s ∷ q ∷ rows)
    later shorter (Memᴰ.head e) = Memᴰ.tail (Memᴰ.head e)
    later shorter (Memᴰ.tail t) = swap (shorter t)

memᴰ-insert_ordered :
    (s r : Session) (rows : List Session) → Memᴰ r (s ∷ rows) → Memᴰ r (insert_ordered s rows)
unfolding insert_ordered
memᴰ-insert_ordered s r [] m = m
memᴰ-insert_ordered s r (q ∷ rows) m = elim (Bool-cases (stands_before s q)) [
  | inl e ↦ rw e m
  | inr e ↦ rw e (later (memᴰ-insert_ordered s r rows) m)
]
  where
    later :
        (Memᴰ r (s ∷ rows) → Memᴰ r (insert_ordered s rows))
        → Memᴰ r (s ∷ q ∷ rows)
        → Memᴰ r (q ∷ insert_ordered s rows)
    later shorter (Memᴰ.head e) = Memᴰ.tail (shorter (Memᴰ.head e))
    later shorter (Memᴰ.tail (Memᴰ.head e)) = Memᴰ.head e
    later shorter (Memᴰ.tail (Memᴰ.tail t)) = Memᴰ.tail (shorter (Memᴰ.tail t))

memᴰ_of_newest_first :
    (r : Session) (rows : List Session) → Memᴰ r (newest_first rows) → Memᴰ r rows
unfolding newest_first
memᴰ_of_newest_first r [] m = m
memᴰ_of_newest_first r (s ∷ rows) m =
    step (memᴰ_of_newest_first r rows) (memᴰ_of_insert_ordered s r (newest_first rows) m)
  where
    step :
        (Memᴰ r (newest_first rows) → Memᴰ r rows)
        → Memᴰ r (s ∷ newest_first rows)
        → Memᴰ r (s ∷ rows)
    step shorter (Memᴰ.head e) = Memᴰ.head e
    step shorter (Memᴰ.tail t) = Memᴰ.tail (shorter t)

memᴰ-newest_first : (r : Session) (rows : List Session) → Memᴰ r rows → Memᴰ r (newest_first rows)
unfolding newest_first
memᴰ-newest_first r [] m = m
memᴰ-newest_first r (s ∷ rows) (Memᴰ.head e) =
    memᴰ-insert_ordered s r (newest_first rows) (Memᴰ.head e)
memᴰ-newest_first r (s ∷ rows) (Memᴰ.tail t) =
    memᴰ-insert_ordered s r (newest_first rows) (Memᴰ.tail (memᴰ-newest_first r rows t))

is_listed_iff :
    (user_id : Text) (at : ℕ) (r : Session)
    → (is_listed user_id at r ≡ true) ↔ ((r.user_id ≡ user_id) × (at < r.expires_at))
is_listed_iff user_id at r = ground (arith, text_eq_iff r.user_id user_id)

-- Where the store answers, a user is shown exactly the user's unexpired sessions, the newest first.
pub list_exact :
    (user_id : Text) (w : World) (shown : List Session)
    → w.fault w.calls ≡ false
    → (Service.list user_id w).0 ≡ ok shown
    → Descending shown
      × ((r : Session)
          → Memᴰ r shown
            ↔ (Memᴰ r w.sessions × (r.user_id ≡ user_id) × (w.clock w.reads < r.expires_at)))
unfolding Service.list list_by_user_id select_listed
list_exact user_id w shown up h =
    let is : newest_first (filter (is_listed user_id (w.clock w.reads)) w.sessions) ≡ shown =
      ok_injective _ shown w w (ap (λ x. (x, w)) (rw up at h)) in
    subst
      (λ rows.
        Descending rows
        × ((r : Session)
            → Memᴰ r rows
              ↔ (Memᴰ r w.sessions × (r.user_id ≡ user_id) × (w.clock w.reads < r.expires_at))))
      is
      (
        newest_first-Descending (filter (is_listed user_id (w.clock w.reads)) w.sessions),
        λ r. (
          (λ m.
              let (there, listed) =
                memᴰ_of_filter (is_listed user_id (w.clock w.reads)) w.sessions r
                  (memᴰ_of_newest_first r _ m) in
              let (owner, live) = (is_listed_iff user_id (w.clock w.reads) r).0 listed in
              (there, owner, live)),
          (λ (there, owner, live). memᴰ-newest_first r _ (
              memᴰ-filter (is_listed user_id (w.clock w.reads)) w.sessions r there
                ((is_listed_iff user_id (w.clock w.reads) r).1 (owner, live)))),
        ),
      )
