-- ===== src/Service/Public/Cooldown.antt =====
-- The cooldown of the sync for players (publicCooldownLimiter and claimCooldown).
use text.Mathlib.TextLemmas.{append_cancel_left, append_cancel_right}
use extend_regional_payment.Prelude.{
  ◌<>◌, Bool-cases, ltb, inl, inr, ◌⊎◌, ℕ, ◌+◌, ◌≤◌, ◌<◌, String, ◌≡◌, ◌≢◌, refl, arith, eq_refl,
  eq_iff, if◌then◌else◌,
}
use extend_regional_payment.Prelude.Int.{pos}
use extend_regional_payment.Prelude.Table.{lookup, lookup-insert, insert}
use extend_regional_payment.Service.World.{World, Env}
use extend_regional_payment.Service.Reply.{reply, fail, resource_exhausted}
use extend_regional_payment.Service.Public.{
  claim_cooldown, cooldown_duration, cooldown_key, is_cooling,
}

module _ (env : Env) (n : ℕ) (on : cooldown_duration env.cfg ≡ pos n) where
  claim_cooldown_lem :
      (namespace user_id provider : String) (w : World)
      → claim_cooldown env namespace user_id provider w ≡ (
          if is_cooling
            (lookup (cooldown_key namespace user_id provider) w.last_seen)
            n
            (env.clock w)
          then (fail resource_exhausted "public sync cooldown is active", w)
          else (
            reply tt,
            record w {
              last_seen =
                  insert (cooldown_key namespace user_id provider) (env.clock w) w.last_seen;
            },
          ))
  unfolding claim_cooldown
  claim_cooldown_lem namespace user_id provider w = rw on refl

same_user : (a u v c : String) → a <> "|" <> u <> c ≡ a <> "|" <> v <> c → u ≡ v
same_user a u v c e = append_cancel_right u v c (
    append_cancel_left "|" (u <> c) (v <> c)
      (append_cancel_left a ("|" <> u <> c) ("|" <> v <> c) e))

-- Within one namespace and provider, two players have different keys.
cooldown_key-user_id :
    (namespace u v provider : String)
    → cooldown_key namespace u provider ≡ cooldown_key namespace v provider
    → u ≡ v
cooldown_key-user_id namespace u v provider e = same_user namespace u v _ e

module _ (env : Env) (n : ℕ) (on : cooldown_duration env.cfg ≡ pos n)
    (namespace user_id provider : String) (w w' : World)
    (first : (claim_cooldown env namespace user_id provider w).0 ≡ reply tt)
    (same : w'.last_seen ≡ (claim_cooldown env namespace user_id provider w).1.last_seen) where
  -- After a sync that was let through, the next one of the same player, namespace and provider is
  -- let through if and only if the cooldown is over; until then it is refused and changes nothing.
  pub claim_cooldown_again :
      ((env.clock w + n ≤ env.clock w')
        × ((claim_cooldown env namespace user_id provider w').0 ≡ reply tt))
      ⊎ ((env.clock w' < env.clock w + n)
          × (claim_cooldown env namespace user_id provider w'
              ≡ (fail resource_exhausted "public sync cooldown is active", w')))
  claim_cooldown_again = elim (Bool-cases (ltb (env.clock w') (env.clock w + n))) [
    | inl early ↦ inr (
      ground (arith, early),
      ground (
        arith,
        claim_cooldown_lem env n on namespace user_id provider w,
        claim_cooldown_lem env n on namespace user_id provider w',
        lookup-insert (cooldown_key namespace user_id provider)
            (cooldown_key namespace user_id provider) (env.clock w) w.last_seen,
        eq_refl (cooldown_key namespace user_id provider),
      ),
    )
    | inr over ↦ inl (
      ground (arith, over),
      ground (
        arith,
        claim_cooldown_lem env n on namespace user_id provider w,
        claim_cooldown_lem env n on namespace user_id provider w',
        lookup-insert (cooldown_key namespace user_id provider)
            (cooldown_key namespace user_id provider) (env.clock w) w.last_seen,
        eq_refl (cooldown_key namespace user_id provider),
      ),
    )
  ]

  -- A sync of one player does not delay another of the same namespace and provider: the other's
  -- decision is the one that it would have been at that time without the first.
  pub claim_cooldown_other :
      (user_id' : String)
      → user_id' ≢ user_id
      → env.clock w' ≡ env.clock w
      → (claim_cooldown env namespace user_id' provider w').0
        ≡ (claim_cooldown env namespace user_id' provider w).0
  claim_cooldown_other b ne at = ground (
    arith,
    claim_cooldown_lem env n on namespace b provider w,
    claim_cooldown_lem env n on namespace b provider w',
    claim_cooldown_lem env n on namespace user_id provider w,
    lookup-insert (cooldown_key namespace b provider) (cooldown_key namespace user_id provider)
        (env.clock w) w.last_seen,
    eq_iff (cooldown_key namespace user_id provider) (cooldown_key namespace b provider),
    cooldown_key-user_id namespace user_id b provider,
  )
