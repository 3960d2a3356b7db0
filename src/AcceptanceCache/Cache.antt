-- ===== src/AcceptanceCache/Cache.antt =====
-- The operations of promptAcceptanceCache (daemon/cmd/daemon/prompt_state.go), each one step under
-- its mutex.
use nekonest.Prelude.{
  ℕ, zero, suc, ℤ, ◌+◌, ◌-◌, ◌%◌, List, [], ◌∷◌, ◌++◌, Option, none, some, Bytes, ascii,
  bytes_discrete, length, leb, ltb, take, is_empty, is_positive, pos_part, if◌then◌else◌, lookup,
  insert, delete, Result, ok, err,
}
use nekonest.Text.Bounded.{valid_cut}

-- promptAcceptanceCache; an entry is the echo of its prompt.
pub record Cache : Type 0 where
  pub max : ℕ
  pub entries : List (Bytes × Bytes)
  pub order : List Bytes
  pub next : ℕ

pub data Error : Type 0 where
  client_msg_id_required outcome_indeterminate : Error

abbrev pub max_accepted_prompt_ids : ℕ
max_accepted_prompt_ids = 4096

abbrev pub max_accepted_prompt_echo_bytes : ℕ
max_accepted_prompt_echo_bytes = 4096

abbrev pub find : Bytes → List (Bytes × Bytes) → Option Bytes
find = lookup bytes_discrete

abbrev pub put : Bytes → Bytes → List (Bytes × Bytes) → List (Bytes × Bytes)
put = insert bytes_discrete

abbrev pub drop_key : Bytes → List (Bytes × Bytes) → List (Bytes × Bytes)
drop_key = delete bytes_discrete

unfoldable pub new_prompt_acceptance_cache : ℤ → Cache
new_prompt_acceptance_cache max = record {
  max = if is_positive max then pos_part max else max_accepted_prompt_ids;
  entries = [];
  order = [];
  next = 0;
}

unfoldable pub bounded_prompt_echo : Bytes → Bytes
bounded_prompt_echo prompt =
    if leb (length prompt) max_accepted_prompt_echo_bytes
    then prompt
    else take (valid_cut (max_accepted_prompt_echo_bytes - 3) prompt) prompt ++ ascii "..."

-- `c.order[i]` and `c.order[i] = key`; nothing where the slice ends before.
unfoldable pub at_index : ℕ → List Bytes → Option Bytes
at_index i [] = none
at_index zero (k ∷ rest) = some k
at_index (suc i) (k ∷ rest) = at_index i rest

unfoldable pub set_index : ℕ → Bytes → List Bytes → List Bytes
set_index i key [] = []
set_index zero key (k ∷ rest) = key ∷ rest
set_index (suc i) key (k ∷ rest) = k ∷ set_index i key rest

abbrev pub drop_oldest : Option Bytes → List (Bytes × Bytes) → List (Bytes × Bytes)
drop_oldest none m = m
drop_oldest (some oldest) m = drop_key oldest m

-- promptCacheKey: the digest, a parameter, of the two ids with a zero byte between.
abbrev pub prompt_cache_key : (Bytes → Bytes) → Bytes → Bytes → Bytes
prompt_cache_key digest session client = digest (session ++ (0 ∷ client))

-- The part of add after the key is known to be new.
abbrev pub add_new : Cache → Bytes → Bytes → Cache
add_new c key echo =
    if ltb (length c.order) c.max
    then record c { order = c.order ++ (key ∷ []); entries = put key echo c.entries }
    else record c {
      entries = put key echo (drop_oldest (at_index c.next c.order) c.entries);
      order = set_index c.next key c.order;
      next = (c.next + 1) % c.max;
    }

abbrev pub add_found : Cache → Bytes → Bytes → Option Bytes → Cache
add_found c key prompt (some _) = c
add_found c key prompt none = add_new c key (bounded_prompt_echo prompt)

module _ (digest : Bytes → Bytes) where
  unfoldable pub get : Cache → Bytes → Bytes → Option Bytes
  get c session client =
      if is_empty client then none else find (prompt_cache_key digest session client) c.entries

  unfoldable pub add : Cache → Bytes → Bytes → Bytes → Cache
  add c session client prompt =
      if is_empty client
      then c
      else let key = prompt_cache_key digest session client in
        add_found c key prompt (find key c.entries)

  abbrev status_of : Option Bytes → Result Error Bytes
  status_of (some echo) = ok echo
  status_of none = err outcome_indeterminate

  unfoldable pub prompt_status : Cache → Bytes → Bytes → Result Error Bytes
  unfolding get
  prompt_status c session client =
      if is_empty client then err client_msg_id_required else status_of (get c session client)
