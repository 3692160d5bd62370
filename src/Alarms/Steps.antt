-- ===== src/Alarms/Steps.antt =====
-- A test that starts its timers, runs them and cancels them.
use wifitesttool.Alarms.{
  Proc, test_proc, stats_proc, reporter_proc, omit_proc, Alarms, Started, created, then_create,
  then_stats_reporter, undone, set_omitting, create_server_timers, create_client_timers,
  omit_timer_at, create_omit_timer,
}
use wifitesttool.Alarms.Owned.{
  IsOwned, IsOwned-cong, pointer, put, same, is_periodic, created-IsOwned,
}
use wifitesttool.Base.{
  ℕ, ◌≡◌, refl, sym, subst, ◌∙◌, Bool, true, false, Option, none, some, arith, if◌then◌else◌,
}
use wifitesttool.Base.Int.{ℤ, pos, pos_part, ◌+ℤ◌, ◌*ℤ◌}
use wifitesttool.Error.{ok, error}
use wifitesttool.Params.{nonzero}
use wifitesttool.Test.{Test}
use wifitesttool.Timer.{Timers, Timeval, million, tmr_create}
use wifitesttool.Timer.Time.{IsNormal}
use wifitesttool.Timer.Valid.{IsFresh}

-- What gettimeofday gives is normal.
abbrev pub NormalTime : Option Timeval → Type 0
NormalTime none = Unit
NormalTime (some now) = IsNormal now

abbrev pub AllNull : Alarms → Type 0
AllNull c = (p : Proc) → pointer c p ≡ none

created-pointer :
    (p q : Proc) (r : Option ℕ × Timers Proc) (c : Alarms)
    → put p r.0 (pointer c) q ≡ pointer (created p r c).2 q
created-pointer p q r c = ground arith

created-timers : (p : Proc) (r : Option ℕ × Timers Proc) (c : Alarms) → (created p r c).1 ≡ r.1
created-timers p r c = ground arith

-- Timers that are owned, where `left` have no timer yet.
record IsReady (x : Started) (left : Proc → Bool) : Type 0 where
  pub owned : IsOwned x.1 (pointer x.2)
  pub unset : (q : Proc) → left q ≡ true → pointer x.2 q ≡ none

IsOwned-if :
    (b : Bool) (x y : Started)
    → IsOwned x.1 (pointer x.2)
    → IsOwned y.1 (pointer y.2)
    → (let z = (if b then x else y) in IsOwned z.1 (pointer z.2))
IsOwned-if true x y o w = o
IsOwned-if false x y o w = w

module _ (malloc : Timers Proc → Option ℕ) (fresh : (s : Timers Proc) → IsFresh (malloc s) s) where
  then_create-IsReady :
      (now : Timeval) (wanted : Bool) (p : Proc) (usecs : ℤ) (x : Started) (left : Proc → Bool)
      → IsNormal now
      → left p ≡ true
      → IsReady x left
      → IsReady
          (then_create malloc now wanted p usecs (is_periodic p) x)
          (λ q. if same p q then false else left q)
  then_create-IsReady now wanted p usecs (error e, s, c) left n l o = record {
    owned = o.owned;
    unset = λ q h. o.unset q (ground (arith, h));
  }
  then_create-IsReady now false p usecs (ok, s, c) left n l o = record {
    owned = o.owned;
    unset = λ q h. o.unset q (ground (arith, h));
  }
  then_create-IsReady now true p usecs (ok, s, c) left n l o =
      let r = tmr_create (malloc s) now p (pos_part usecs) (is_periodic p) s in
      let w =
        created-IsOwned malloc now p (pos_part usecs) s (pointer c) fresh n o.owned (o.unset p l) in
      record {
        owned =
            subst (λ y. IsOwned y (pointer (created p r c).2)) (sym (created-timers p r c))
              (IsOwned-cong r.1 (put p r.0 (pointer c)) (pointer (created p r c).2)
                (λ q. created-pointer p q r c) w);
        unset = λ q h. sym (created-pointer p q r c) ∙ ground (arith, h, o.unset q);
      }

  stats_reporter-IsReady :
      (now : Timeval) (t : Test) (x : Started) (left : Proc → Bool)
      → IsNormal now
      → left stats_proc ≡ true
      → left reporter_proc ≡ true
      → IsReady x left
      → IsOwned
          (then_stats_reporter malloc now t x).1
          (pointer (then_stats_reporter malloc now t x).2)
  stats_reporter-IsReady now t x left n ls lr o =
      let stats =
        then_create-IsReady now (nonzero t.stats_interval) stats_proc t.stats_interval x left n ls
          o in
      let reports =
        then_create-IsReady now (nonzero t.reporter_interval) reporter_proc t.reporter_interval
          (then_create malloc now (nonzero t.stats_interval) stats_proc t.stats_interval true x)
          (λ q. if same stats_proc q then false else left q) n lr stats in
      reports.owned

  pub server-IsOwned :
      (time : Option Timeval) (s : Timers Proc) (c : Alarms)
      → NormalTime time
      → IsOwned s (pointer c)
      → AllNull c
      → (let x = create_server_timers malloc time s c in IsOwned x.1 (pointer x.2))
  unfolding create_server_timers
  server-IsOwned none s c n o null = o
  server-IsOwned (some now) s c n o null =
      let c' = record c { stats_timer = none; reporter_timer = none } in
      let null' : AllNull c' = λ p. ground (arith, null p) in
      stats_reporter-IsReady now c.running.test (ok, s, c') (λ q. true) n refl refl
        (record {
          owned = IsOwned-cong s (pointer c) (pointer c') (λ p. null p ∙ sym (null' p)) o;
          unset = λ q h. null' q;
        })

  undone-pointer : (c : Alarms) (p : Proc) → pointer (undone malloc c) p ≡ pointer c p
  undone-pointer c p = ground arith

  pub client-IsOwned :
      (time : Option Timeval) (s : Timers Proc) (c : Alarms)
      → NormalTime time
      → IsOwned s (pointer c)
      → AllNull c
      → (let x = create_client_timers malloc time s c in IsOwned x.1 (pointer x.2))
  unfolding create_client_timers
  client-IsOwned none s c n o null = o
  client-IsOwned (some now) s c n o null =
      let t = c.running.test in
      let c' = record c { timer = none; stats_timer = none; reporter_timer = none } in
      let null' : AllNull (undone malloc c') = λ p. undone-pointer c' p ∙ ground (arith, null p) in
      let usecs = (t.duration +ℤ t.omit) *ℤ pos million in
      stats_reporter-IsReady now t
        (then_create malloc now (nonzero t.duration) test_proc usecs false
          (ok, s, undone malloc c'))
        (λ q. if same test_proc q then false else true) n refl refl
        (then_create-IsReady now (nonzero t.duration) test_proc usecs (ok, s, undone malloc c')
          (λ q. true) n refl
          (record {
            owned =
                IsOwned-cong s (pointer c) (pointer (undone malloc c'))
                  (λ p. null p ∙ sym (null' p)) o;
            unset = λ q h. null' q;
          }))

  omit_at-IsOwned :
      (time : Option Timeval) (s : Timers Proc) (c : Alarms)
      → NormalTime time
      → IsOwned s (pointer c)
      → c.omit_timer ≡ none
      → (let x = omit_timer_at malloc time s c in IsOwned x.1 (pointer x.2))
  omit_at-IsOwned none s c n o e = o
  omit_at-IsOwned (some now) s c n o e =
      let c' = set_omitting malloc true c in
      let w =
        then_create-IsReady now true omit_proc (c.running.test.omit *ℤ pos million) (ok, s, c')
          (λ q. same omit_proc q) n refl
          (record {
            owned = IsOwned-cong s (pointer c) (pointer c') (λ p. ground arith) o;
            unset = λ q h. ground (arith, h, e);
          }) in
      w.owned

  pub omit-IsOwned :
      (time : Option Timeval) (s : Timers Proc) (c : Alarms)
      → NormalTime time
      → IsOwned s (pointer c)
      → c.omit_timer ≡ none
      → (let x = create_omit_timer malloc time s c in IsOwned x.1 (pointer x.2))
  unfolding create_omit_timer
  omit-IsOwned time s c n o e =
      let c' = set_omitting malloc false (record c { omit_timer = none }) in
      IsOwned-if (nonzero c.running.test.omit) (omit_timer_at malloc time s c) (ok, s, c')
        (omit_at-IsOwned time s c n o e)
        (IsOwned-cong s (pointer c) (pointer c') (λ p. ground (arith, e)) o)
