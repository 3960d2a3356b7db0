-- ===== src/AcceptanceCache/Acknowledge.antt =====
-- What a retransmission of an accepted prompt hears (daemon/cmd/daemon/prompt_state.go).
use nekonest.Prelude.{
  ◌≡◌, ◌≤◌, ◌-◌, ◌⊎◌, inl, inr, false, none, some, Bytes, ok, arith, ltb, length, ascii, take,
  is_empty, bytes_discrete, lookup-insert_self, length-append, length-take, Option-cases,
  Bool-cases,
}
use nekonest.Text.Bounded.{valid_cut, valid_cut-le}
use nekonest.AcceptanceCache.Cache.{
  Cache, find, add_new, drop_oldest, at_index, bounded_prompt_echo, prompt_cache_key, get, add,
  prompt_status, max_accepted_prompt_echo_bytes,
}

-- The echo of any prompt fits its bound.
pub length-bounded_prompt_echo :
    (prompt : Bytes) → length (bounded_prompt_echo prompt) ≤ max_accepted_prompt_echo_bytes
unfolding bounded_prompt_echo
length-bounded_prompt_echo prompt =
    let cut = valid_cut (max_accepted_prompt_echo_bytes - 3) prompt in
    ground (
      arith,
      length-append (take cut prompt) (ascii "..."),
      length-take cut prompt,
      valid_cut-le (max_accepted_prompt_echo_bytes - 3) prompt,
    )

find-add_new : (c : Cache) (key echo : Bytes) → find key (add_new c key echo).entries ≡ some echo
find-add_new c key echo = elim (Bool-cases (ltb (length c.order) c.max)) [
  | inl room ↦ rw room (lookup-insert_self bytes_discrete key echo c.entries)
  | inr full ↦
      rw full (
        lookup-insert_self bytes_discrete key echo
          (drop_oldest (at_index c.next c.order) c.entries))
]

-- After an accepted prompt with an id was added, even to a full cache, its status is the acceptance:
-- with the echo that the cache held before, and then the cache is as it was, or with the bounded echo
-- of the prompt, if the cache did not know it.
pub prompt_status-add :
    (digest : Bytes → Bytes) (c : Cache) (session client prompt : Bytes)
    → is_empty client ≡ false
    → let after = add digest c session client prompt in
      let told = prompt_status digest after session client in
      ((echo : Bytes) × (get digest c session client ≡ some echo) × (after ≡ c) × (told ≡ ok echo))
      ⊎ ((get digest c session client ≡ none) × (told ≡ ok (bounded_prompt_echo prompt)))
unfolding add get prompt_status
prompt_status-add digest c session client prompt named =
    let key = prompt_cache_key digest session client in
    elim (Option-cases (find key c.entries)) [
      | inr (echo, e) ↦ inl (echo, ground arith, ground arith, ground arith)
      | inl e ↦ inr (ground arith, ground (arith, find-add_new c key (bounded_prompt_echo prompt)))
    ]
