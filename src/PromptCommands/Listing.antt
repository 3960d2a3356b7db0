-- ===== src/PromptCommands/Listing.antt =====
-- ListUncommittedAcceptedPrompts of server/internal/db/prompt_commands.go, with which the relay finds the
-- accepted prompts whose commit the daemon has not been told.
use mathlib.Core.List.{Memᴰ}
use mathlib.Core.Logic.{if_pos}
use nekonest.Prelude.{
  ◌+◌, ℕ, ◌≡◌, ◌≤◌, refl, ap, Bool, true, false, ◌&&◌, ◌||◌, not, List, [], ◌∷◌, some, Bytes,
  bytes_discrete, ℤ, pos, arith, ltb_ℤ, pos_part, ite, if◌then◌else◌, length, take, values, lookup,
  Result, ok, err, inl, inr, Bool-cases, subst, zero, suc,
}
use nekonest.PromptJournal.Record.{ltb_bytes}
use nekonest.PromptCommands.Table.{
  accepted, PromptCommand, Key, Table, find, is_accepted, key_discrete,
}
use nekonest.PromptCommands.Commands.{Error, database}

abbrev str_eq : Bytes → Bytes → Bool
str_eq a b = ite (bytes_discrete a b) true false

-- `limit < 1 || limit > 500`.
abbrev pub clamped : ℤ → ℕ
clamped limit = if ltb_ℤ limit (pos 1) || ltb_ℤ (pos 500) limit then 100 else pos_part limit

-- The WHERE clause.
abbrev pub is_uncommitted : Bytes → PromptCommand → Bool
is_uncommitted device row =
    str_eq row.device_id device && is_accepted row.status && not row.commit_sent

-- The ORDER BY clause.
abbrev pub sooner : PromptCommand → PromptCommand → Bool
sooner a b =
    ltb_ℤ a.updated_at b.updated_at
    || not (ltb_ℤ b.updated_at a.updated_at) && ltb_bytes a.client_msg_id b.client_msg_id

unfoldable pub select_uncommitted : Bytes → List PromptCommand → List PromptCommand
select_uncommitted device [] = []
select_uncommitted device (row ∷ rest) =
    let others = select_uncommitted device rest in
    if is_uncommitted device row then row ∷ others else others

unfoldable pub insert_sooner : PromptCommand → List PromptCommand → List PromptCommand
insert_sooner x [] = x ∷ []
insert_sooner x (y ∷ ys) =
    let after = insert_sooner x ys in if sooner y x then y ∷ after else x ∷ y ∷ ys

unfoldable pub sort_sooner : List PromptCommand → List PromptCommand
sort_sooner [] = []
sort_sooner (x ∷ xs) = insert_sooner x (sort_sooner xs)

unfoldable pub list_uncommitted_accepted_prompts :
    Table → Bytes → ℤ → Bool → Result Error (List PromptCommand)
list_uncommitted_accepted_prompts t device limit answers =
    if answers
    then ok (take (clamped limit) (sort_sooner (select_uncommitted device (values t))))
    else err database

length-insert_sooner :
    (x : PromptCommand) (ys : List PromptCommand) → length (insert_sooner x ys) ≡ length ys + 1
unfolding insert_sooner
length-insert_sooner x [] = refl
length-insert_sooner x (y ∷ ys) = ground (arith, length-insert_sooner x ys)

length-sort_sooner : (xs : List PromptCommand) → length (sort_sooner xs) ≡ length xs
unfolding sort_sooner
length-sort_sooner [] = refl
length-sort_sooner (x ∷ xs) =
    omega (arith, length-insert_sooner x (sort_sooner xs), length-sort_sooner xs)

insert_sooner-here : (x : PromptCommand) (ys : List PromptCommand) → Memᴰ x (insert_sooner x ys)
unfolding insert_sooner
insert_sooner-here x [] = Memᴰ.head refl
insert_sooner-here x (y ∷ ys) = elim (Bool-cases (sooner y x)) [
  | inl s ↦ rw s (Memᴰ.tail (insert_sooner-here x ys))
  | inr n ↦ rw n (Memᴰ.head refl)
]

insert_sooner-there :
    (x z : PromptCommand) (ys : List PromptCommand) → Memᴰ z ys → Memᴰ z (insert_sooner x ys)
unfolding insert_sooner
insert_sooner-there x z [] m = elim m [ ]
insert_sooner-there x z (y ∷ ys) (Memᴰ.head e) = elim (Bool-cases (sooner y x)) [
  | inr n ↦ rw n (Memᴰ.tail (Memᴰ.head e))
  | inl s ↦ rw s (Memᴰ.head e)
]
insert_sooner-there x z (y ∷ ys) (Memᴰ.tail m) = elim (Bool-cases (sooner y x)) [
  | inr n ↦ rw n (Memᴰ.tail (Memᴰ.tail m))
  | inl s ↦ rw s (Memᴰ.tail (insert_sooner-there x z ys m))
]

sort_sooner-mem :
    (z : PromptCommand) (xs : List PromptCommand) → Memᴰ z xs → Memᴰ z (sort_sooner xs)
unfolding sort_sooner
sort_sooner-mem z [] m = elim m [ ]
sort_sooner-mem z (x ∷ xs) (Memᴰ.head e) =
    subst (λ y. Memᴰ z (insert_sooner y (sort_sooner xs))) e (insert_sooner-here z (sort_sooner xs))
sort_sooner-mem z (x ∷ xs) (Memᴰ.tail m) =
    insert_sooner-there x z (sort_sooner xs) (sort_sooner-mem z xs m)

select_uncommitted-mem :
    (device : Bytes) (row : PromptCommand) (k : Key) (t : Table)
    → is_uncommitted device row ≡ true
    → find k t ≡ some row
    → Memᴰ row (select_uncommitted device (values t))
unfolding select_uncommitted lookup
select_uncommitted-mem device row k [] u f = absurd (ground arith)
select_uncommitted-mem device row k ((j, first) ∷ t) u f = elim (key_discrete j k) [
  | yes s ↦ let same : first ≡ row = ground (arith, f, s) in rw (same, u) (Memᴰ.head refl)
  | no n ↦
      let later = select_uncommitted-mem device row k t u (ground (arith, f, n)) in
      elim (Bool-cases (is_uncommitted device first)) [
        | inl y ↦ rw y (Memᴰ.tail later)
        | inr y ↦ rw y later
      ]
]

take_all : (n : ℕ) (xs : List PromptCommand) → length xs ≤ n → take n xs ≡ xs
take_all zero [] h = refl
take_all zero (x ∷ xs) h = absurd (omega arith)
take_all (suc n) [] h = refl
take_all (suc n) (x ∷ xs) h = ap (λ rest. x ∷ rest) (take_all n xs (omega arith))

-- If the query succeeds, and no more accepted prompts of the device wait for their commit than the limit, which is
-- 100 where the caller's is below 1 or above 500, then every accepted prompt of the device whose commit was not
-- sent is listed.
pub list_uncommitted_accepted_prompts_complete :
    (t : Table) (device : Bytes) (limit : ℤ) (k : Key) (row : PromptCommand)
    → find k t ≡ some row
    → row.device_id ≡ device
    → row.status ≡ accepted
    → row.commit_sent ≡ false
    → length (select_uncommitted device (values t)) ≤ clamped limit
    → (rows : List PromptCommand) × (list_uncommitted_accepted_prompts t device limit true
        ≡ ok rows)
      × Memᴰ row rows
unfolding list_uncommitted_accepted_prompts
list_uncommitted_accepted_prompts_complete t device limit k row f d a c few =
    let sorted = sort_sooner (select_uncommitted device (values t)) in
    let all =
      take_all (clamped limit) sorted
        (omega (arith, length-sort_sooner (select_uncommitted device (values t)), few)) in
    (
      sorted,
      ap ok all,
      sort_sooner-mem row (select_uncommitted device (values t)) (
          select_uncommitted-mem device row k t
            (rw (if_pos (bytes_discrete row.device_id device) d, a, c) refl) f),
    )
