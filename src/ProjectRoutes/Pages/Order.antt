-- ===== src/ProjectRoutes/Pages/Order.antt =====
-- The order of the listed projects and the cut of a list into pages, about `list_projects` of
-- api/projects.py.
use ai_auto_platform.Prelude.{
  ℕ, zero, suc, ◌≡◌, refl, sym, ap, arith, Bool, true, false, some, none, inl, inr, List, [], ◌∷◌,
  ◌++◌, ltb, ◌==◌, if◌then◌else◌, length, find_by, select, order_by, insert_by, limit, All,
  Distinct, has_key, Bool-cases,
}
use ai_auto_platform.Db.Models.{ProjectModel}
use ai_auto_platform.ProjectRoutes.Pages.{is_before, is_after, get_elem?}

abbrev pub project_id : ProjectModel → ℕ
project_id p = p.id

-- What a cursor holds of a project.
abbrev pub cursor_key : ProjectModel → ℕ × ℕ
cursor_key p = (p.created_at, p.id)

-- Every project stands before all that follow it.
abbrev pub Ascends : List ProjectModel → Type 0
Ascends [] = Unit
Ascends (x ∷ xs) = All (λ y. is_after (cursor_key x) y ≡ true) xs × Ascends xs

module _ (p : ProjectModel → Bool) where
  All-select : (P : ProjectModel → Type 0) (xs : List ProjectModel) → All P xs → All P (select p xs)
  All-select P [] a = tt
  All-select P (x ∷ xs) a = elim (Bool-cases (p x)) [
    | inl e ↦ rw e (a.0, All-select P xs a.1)
    | inr e ↦ rw e (All-select P xs a.1)
  ]

All-weaken :
    (P Q : ProjectModel → Type 0) (xs : List ProjectModel)
    → ((x : ProjectModel) → P x → Q x)
    → All P xs
    → All Q xs
All-weaken P Q [] f a = tt
All-weaken P Q (x ∷ xs) f a = (f x a.0, All-weaken P Q xs f a.1)

All-insert_by :
    (P : ProjectModel → Type 0) (x : ProjectModel) (xs : List ProjectModel)
    → P x
    → All P xs
    → All P (insert_by is_before x xs)
All-insert_by P x [] h a = (h, tt)
All-insert_by P x (y ∷ ys) h a = elim (Bool-cases (is_before x y)) [
  | inl e ↦ rw e (h, a)
  | inr e ↦ rw e (a.0, All-insert_by P x ys h a.1)
]

All-order_by :
    (P : ProjectModel → Type 0) (xs : List ProjectModel) → All P xs → All P (order_by is_before xs)
All-order_by P [] a = tt
All-order_by P (x ∷ xs) a = All-insert_by P x (order_by is_before xs) a.0 (All-order_by P xs a.1)

before-after :
    (x y z : ProjectModel)
    → is_before x y ≡ true
    → is_after (cursor_key y) z ≡ true
    → is_before x z ≡ true
before-after x y z h k = ground arith

-- Two projects of different ids are in one order or the other.
strictly :
    (x y : ProjectModel)
    → (y.id == x.id) ≡ false
    → is_before x y ≡ true
    → is_after (cursor_key x) y ≡ true
strictly x y d h = ground arith

behind : (x y : ProjectModel) → is_before x y ≡ false → is_after (cursor_key y) x ≡ true
behind x y h = ground arith

insert_by-Ascends :
    (x : ProjectModel) (xs : List ProjectModel)
    → All (λ y. (y.id == x.id) ≡ false) xs
    → Ascends xs
    → Ascends (insert_by is_before x xs)
insert_by-Ascends x [] d s = (tt, tt)
insert_by-Ascends x (y ∷ ys) d s = elim (Bool-cases (is_before x y)) [
  | inl e ↦
      let first = strictly x y d.0 e in
      rw e ((first, All-weaken _ _ ys (λ z k. after-after x y z first k) s.0), s)
  | inr e ↦ rw e (
    All-insert_by (λ z. is_after (cursor_key y) z ≡ true) x ys (behind x y e) s.0,
    insert_by-Ascends x ys d.1 s.1,
  )
]
  where
    after-after :
        (x y z : ProjectModel)
        → is_after (cursor_key x) y ≡ true
        → is_after (cursor_key y) z ≡ true
        → is_after (cursor_key x) z ≡ true
    after-after x y z h k = ground arith

absent-All :
    (k : ℕ) (xs : List ProjectModel)
    → find_by (has_key project_id k) xs ≡ none
    → All (λ y. (y.id == k) ≡ false) xs
absent-All k [] h = tt
absent-All k (x ∷ xs) h = (ground arith, absent-All k xs (ground arith))

-- Projects of different ids are put in order.
pub order_by-Ascends :
    (xs : List ProjectModel) → Distinct project_id xs → Ascends (order_by is_before xs)
order_by-Ascends [] d = tt
order_by-Ascends (x ∷ xs) d =
    insert_by-Ascends x (order_by is_before xs) (All-order_by _ xs (absent-All x.id xs d.0))
      (order_by-Ascends xs d.1)

insert_by-front :
    (x : ProjectModel) (xs : List ProjectModel)
    → All (λ y. is_before x y ≡ true) xs
    → insert_by is_before x xs ≡ x ∷ xs
insert_by-front x [] a = refl
insert_by-front x (y ∷ ys) a = rw (a.0) refl

module _ (p : ProjectModel → Bool) where
  select-insert_by :
      (x : ProjectModel) (xs : List ProjectModel)
      → Ascends xs
      → select p (insert_by is_before x xs)
        ≡ (if p x then insert_by is_before x (select p xs) else select p xs)
  select-insert_by x [] s = ground arith
  select-insert_by x (y ∷ ys) s = elim (Bool-cases (is_before x y)) [
    | inl e ↦
        let front =
          insert_by-front x (select p (y ∷ ys))
            (All-select p _ (y ∷ ys) (e, All-weaken _ _ ys (λ z k. before-after x y z e k) s.0)) in
        rw e (elim (Bool-cases (p x)) [ inl t ↦ rw t (sym front) | inr f ↦ rw f refl ])
    | inr e ↦
        let rest = select-insert_by x ys s.1 in
        rw e (
          rw rest (elim (Bool-cases (p x)) [
            | inl t ↦
                rw t (elim (Bool-cases (p y)) [ inl u ↦ rw u (rw e refl) | inr u ↦ rw u refl ])
            | inr f ↦ rw f refl
          ]))
  ]

  -- A query's condition and its order can be exchanged.
  pub select-order_by :
      (xs : List ProjectModel)
      → Distinct project_id xs
      → order_by is_before (select p xs) ≡ select p (order_by is_before xs)
  select-order_by [] d = refl
  select-order_by (x ∷ xs) d =
      rw (select-insert_by x (order_by is_before xs) (order_by-Ascends xs d.1)) (
        rw (sym (select-order_by xs d.1))
          (elim (Bool-cases (p x)) [ inl t ↦ rw t refl | inr f ↦ rw f refl ]))

select_whole :
    (p : ProjectModel → Bool) (xs : List ProjectModel) → All (λ x. p x ≡ true) xs → select p xs ≡ xs
select_whole p [] a = refl
select_whole p (x ∷ xs) a = rw (a.0) (ap (λ ys. x ∷ ys) (select_whole p xs a.1))

-- In a list in order, the cursor of a project selects what follows it.
pub select-is_after :
    (xs : List ProjectModel) (x : ProjectModel) (ys : List ProjectModel)
    → Ascends (xs ++ x ∷ ys)
    → select (is_after (cursor_key x)) (xs ++ x ∷ ys) ≡ ys
select-is_after [] x ys s =
    let self : is_after (cursor_key x) x ≡ false = ground arith in
    rw self (select_whole (is_after (cursor_key x)) ys s.0)
select-is_after (z ∷ xs) x ys s =
    let earlier : is_after (cursor_key x) z ≡ false = passed (later xs s.0) in
    rw earlier (select-is_after xs x ys s.1)
  where
    later :
        (xs : List ProjectModel)
        → All (λ y. is_after (cursor_key z) y ≡ true) (xs ++ x ∷ ys)
        → is_after (cursor_key z) x ≡ true
    later [] a = a.0
    later (w ∷ xs) a = later xs a.1

    passed : is_after (cursor_key z) x ≡ true → is_after (cursor_key x) z ≡ false
    passed h = ground arith

-- A list that is longer than a page: the page, its last project, and what follows.
pub record Cut (n : ℕ) (xs : List ProjectModel) : Type 0 where
  pub front : List ProjectModel
  pub last : ProjectModel
  pub rest : List ProjectModel
  pub whole : xs ≡ front ++ last ∷ rest
  pub page : limit (suc n) (limit (suc (suc n)) xs) ≡ front ++ last ∷ []
  pub shown : get_elem? (limit (suc (suc n)) xs) n ≡ some last

pub cut :
    (n : ℕ) (xs : List ProjectModel)
    → ltb (suc n) (length (limit (suc (suc n)) xs)) ≡ true
    → Cut n xs
cut n [] h = elim (none_left h) [ ]
  where
    none_left : ltb (suc n) 0 ≡ true → ⊥
    none_left e = ground arith
cut zero (x ∷ xs) h = record {
  front = [];
  last = x;
  rest = xs;
  whole = refl;
  page = refl;
  shown = refl;
}
cut (suc n) (x ∷ xs) h =
    let c = cut n xs (ground arith) in
    record {
      front = x ∷ c.front;
      last = c.last;
      rest = c.rest;
      whole = ap (λ ys. x ∷ ys) c.whole;
      page = ap (λ ys. x ∷ ys) c.page;
      shown = c.shown;
    }

pub limit-short :
    (n : ℕ) (xs : List ProjectModel)
    → ltb n (length (limit (suc n) xs)) ≡ false
    → limit (suc n) xs ≡ xs
limit-short n [] h = refl
limit-short zero (x ∷ xs) h = ground arith
limit-short (suc n) (x ∷ xs) h = ap (λ ys. x ∷ ys) (limit-short n xs (ground arith))
