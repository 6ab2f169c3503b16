-- ===== src/Auth/Laws/Sending.antt =====
-- What `send_code` stores.
use finvo.Prelude.{
  Bool, false, ℕ, ◌≡◌, refl, ◌∙◌, true, Option, none, some, ◌∷◌, arith, if◌then◌else◌, ◌&&◌,
  Option-cases, inl, inr,
}
use finvo.Prelude.Text.{Text, codes, text_eq, text_eq_refl}
use finvo.Prelude.Exec.{Outcome, ok, err, final}
use finvo.Auth.Redis.{Redis, IsRedis}
use finvo.Auth.Cache.{cache_set, cache_set_nx}
use finvo.Auth.Codes.{
  AuthError, concluded, compare_digest, is_ascii, type_error, rate_limit_seconds, expire_seconds,
  code_key, rate_limit_key, code_send_too_frequently, Sender, email_sender, sms_sender, find_sender,
  send, store_code, deliver, deliver_by, send_code, verify_code,
}
use finvo.Auth.Laws.Keys.{other_keys_apart}
use finvo.Auth.Laws.Codes.{verify_code_lem}

sends : (sender : Sender) (a c : Text) → send sender a c ≡ true
unfolding send
sends email_sender a c = refl
sends sms_sender a c = refl

module _ {S : Type 0} (r : Redis S) (value : S → Text → Option Text) (law : IsRedis r value) where
  -- `code` is what the account's key holds, and the limit is on.
  record IsSent (a c : Text) (s : S) : Type 0 where
    stored : value s (code_key a) ≡ some c
    limited : value s (rate_limit_key a) ≡ some (codes "1")

  deliver_lem :
      (sender : Sender) (a c : Text) (s : S)
      → value s (rate_limit_key a) ≡ some (codes "1")
      → ((deliver r sender a c s).0 ≡ ok true) × IsSent a c (deliver r sender a c s).1
  unfolding deliver store_code cache_set
  deliver_lem sender a c s limit =
      let stored = λ (j : Text). law.setex_value (code_key a) expire_seconds c s j (omega arith) in
      let there : IsSent a c (r.setex (code_key a) expire_seconds c s).1 = record {
        stored = rw (stored (code_key a), text_eq_refl (code_key a)) refl;
        limited = rw (stored (rate_limit_key a), (other_keys_apart a a).1) limit;
      } in
      rw (sends sender a c, law.setex_done (code_key a) expire_seconds c s (omega arith))
        (refl, there)

  -- with no limit on, the code is sent
  deliver_by_fresh :
      (sender : Sender) (a c : Text) (s : S)
      → value s (rate_limit_key a) ≡ none
      → ((deliver_by r (some sender) a c s).0 ≡ ok true)
        × IsSent a c (deliver_by r (some sender) a c s).1
  unfolding cache_set_nx
  deliver_by_fresh sender a c s h =
      let key = rate_limit_key a in
      let limit = law.nx_fresh_value key (codes "1") rate_limit_seconds s key (omega arith) h in
      rw (law.nx_fresh key (codes "1") rate_limit_seconds s (omega arith) h) (
        deliver_lem sender a c (r.set_nx key (codes "1") rate_limit_seconds s).1
          (rw (text_eq_refl key) at limit))

  -- with the limit on, it is refused, and no key changes
  deliver_by_limited :
      (sender : Sender) (a c t : Text) (s : S)
      → value s (rate_limit_key a) ≡ some t
      → ((deliver_by r (some sender) a c s).0 ≡ err code_send_too_frequently)
        × ((k : Text) → value (deliver_by r (some sender) a c s).1 k ≡ value s k)
  unfolding cache_set_nx
  deliver_by_limited sender a c t s h =
      let key = rate_limit_key a in
      rw (law.nx_held key (codes "1") rate_limit_seconds s t (omega arith) h)
        (refl, λ k. law.nx_held_value key (codes "1") rate_limit_seconds s t k (omega arith) h)

  sent_lem :
      (o : Option Sender) (a c : Text) (s : S)
      → (deliver_by r o a c s).0 ≡ ok true
      → IsSent a c (deliver_by r o a c s).1
  sent_lem none a c s e = cc
  sent_lem (some sender) a c s e = elim (Option-cases (value s (rate_limit_key a))) [
    | inl free ↦ (deliver_by_fresh sender a c s free).1
    | inr (t, held) ↦ let refused = (deliver_by_limited sender a c t s held).0 in cc
  ]

  concluded-answer : (a : Text) (x : Outcome AuthError Bool) (s : S) → (concluded r a x s).0 ≡ x
  concluded-answer a (ok true) s = refl
  concluded-answer a (ok false) s = refl
  concluded-answer a (err e) s = refl

  -- Once a code that is not empty was sent, exactly this code is accepted, on a server that behaves as
  -- documented; a comparison with other characters than ASCII raises.
  pub send_code-verify_code :
      (code_type a : Text) (d : ℕ) (ds g : Text) (s : S)
      → (send_code r code_type a (d ∷ ds) s).0 ≡ ok true
      → (verify_code r a g (final (send_code r code_type a (d ∷ ds) s))).0
        ≡ (if is_ascii (d ∷ ds) && is_ascii g then ok (text_eq (d ∷ ds) g) else err type_error)
  unfolding send_code
  send_code-verify_code code_type a d ds g s e =
      let sent = sent_lem (find_sender code_type) a (d ∷ ds) s e in
      let s' = (send_code r code_type a (d ∷ ds) s).1 in
      rw (verify_code_lem r value law a g s', sent.stored)
        (concluded-answer a (compare_digest (d ∷ ds) g) s')

  -- Right after a code was sent, a second one for the account, of a supported type, is refused, and the
  -- first code stands, on a server that behaves as documented.
  send_code-limited :
      (code_type code_type' a c c' : Text) (sender : Sender) (s : S)
      → (send_code r code_type a c s).0 ≡ ok true
      → find_sender code_type' ≡ some sender
      → ((send_code r code_type' a c' (final (send_code r code_type a c s))).0
          ≡ err code_send_too_frequently)
        × (value
              (final (send_code r code_type' a c' (final (send_code r code_type a c s))))
              (code_key a)
            ≡ some c)
  unfolding send_code
  send_code-limited code_type code_type' a c c' sender s e known =
      let sent = sent_lem (find_sender code_type) a c s e in
      let s' = (send_code r code_type a c s).1 in
      let refused = deliver_by_limited sender a c' (codes "1") s' sent.limited in
      rw known (refused.0, refused.1 (code_key a) ∙ sent.stored)
