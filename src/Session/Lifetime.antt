-- ===== src/Session/Lifetime.antt =====
-- How long a session can be shown, and how long a provider can be selected in it.
use extend_regional_payment.Prelude.{
  ◌+◌, ◌≤◌, String, ◌==◌, ◌≡◌, false, none, some, List, [], ◌∷◌, All,
}
use extend_regional_payment.Prelude.{refl, arith, ltb, if◌then◌else◌}
use extend_regional_payment.Prelude.Table.{lookup, insert, lookup-insert, lookup-insert_self}
use extend_regional_payment.Model.{Time}
use extend_regional_payment.Session.{
  Session, Sessions, day, create, get, get_valid_for_selection, is_stale, sweep, Event, created,
  swept, after, after_all,
}

lookup-sweep :
    (now : Time) (k : String) (x : Session) (s : Sessions)
    → lookup k s ≡ some x
    → is_stale now x ≡ false
    → lookup k (sweep now s) ≡ some x
unfolding lookup sweep
lookup-sweep now k x [] e h = ground arith
lookup-sweep now k x ((j, y) ∷ s) e h = ground (arith, lookup-sweep now k x s)

-- A sweep within a day after the session's expiry, or another session.
abbrev pub Harmless : String → Time → Event → Type 0
Harmless id expires_at (created new_id _) = (new_id == id) ≡ false
Harmless id expires_at (swept now) = now ≤ expires_at + day

module _ (id : String) (x : Session) where
  after-get :
      (e : Event) (s : Sessions)
      → Harmless id x.expires_at e
      → lookup id s ≡ some x
      → lookup id (after e s) ≡ some x
  unfolding after create
  after-get (created j y) s h e = rw (lookup-insert id j (record y { id = j }) s) (rw h e)
  after-get (swept now) s h e = lookup-sweep now id x s e (ground arith)

  after_all-get :
      (es : List Event) (s : Sessions)
      → All (Harmless id x.expires_at) es
      → lookup id s ≡ some x
      → lookup id (after_all es s) ≡ some x
  unfolding after_all
  after_all-get [] s all e = e
  after_all-get (event ∷ es) s (h, all) e =
      after_all-get es (after event s) all (after-get event s h e)

-- A session that was created can be shown until a sweep that is more than a day after its expiry,
-- whatever other sessions are created and whatever sweeps are made before. A provider can be selected
-- in it as often as wanted, and not after its expiry.
pub created-available :
    (id : String) (sess : Session) (s : Sessions) (es : List Event) (now : Time)
    → All (Harmless id sess.expires_at) es
    → let kept = record sess { id = id } in
      let s' = after_all es (create id sess s).1 in
      (get id s' ≡ some kept)
      × (get_valid_for_selection now id s' ≡ (if ltb sess.expires_at now then none else some kept))
unfolding get get_valid_for_selection create
created-available id sess s es now all =
    let kept = record sess { id = id } in
    let there : lookup id (after_all es (insert id kept s)) ≡ some kept =
      after_all-get id kept es (insert id kept s) all (lookup-insert_self id kept s) in
    (there, rw there refl)
