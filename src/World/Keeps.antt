-- ===== src/World/Keeps.antt =====
-- Invariants of actions, a rule for each way to build an action. What a call that throws leaves behind
-- counts too.
use finlabs_explore.Prelude.{String, Bool, true, false, Option, none, some, suc, if◌then◌else◌}
use finlabs_explore.World.{
  World, Outcome, returned, thrown, Exec, pure, throw, gets, continue, caught, try_catch, ◌>>=◌,
  modify, random_uuid, date_now, now_iso, random_keypair,
}
use finlabs_explore.World.Env.{Env}

pub record Keeps {A : Type 0} (P : World → Type 0) (m : Exec A) : Type 0 where
  pub at : (w : World) → P w → P (m w).1

-- `P` does not depend on how much has been drawn, as long as more is drawn.
pub record IsSupplied (P : World → Type 0) : Type 0 where
  pub uuid : (w : World) → P w → P (record w { uuids = suc w.uuids })
  pub reading : (w : World) → P w → P (record w { readings = suc w.readings })
  pub key : (w : World) → P w → P (record w { keys = suc w.keys })

module _ {P : World → Type 0} where
  pub Keeps-pure : {A : Type 0} (a : A) → Keeps P (pure a)
  unfolding pure
  Keeps-pure a = record { at = λ w h. h }

  pub Keeps-throw : {A : Type 0} (message : String) → Keeps P (throw {A = A} message)
  unfolding throw
  Keeps-throw message = record { at = λ w h. h }

  pub Keeps-gets : {A : Type 0} (f : World → A) → Keeps P (gets f)
  unfolding gets
  Keeps-gets f = record { at = λ w h. h }

  pub Keeps-modify : (f : World → World) → ((w : World) → P w → P (f w)) → Keeps P (modify f)
  unfolding modify
  Keeps-modify f k = record { at = k }

  pub Keeps-if :
      {A : Type 0} (b : Bool) (m n : Exec A) → Keeps P m → Keeps P n → Keeps P (if b then m else n)
  Keeps-if true m n km kn = km
  Keeps-if false m n km kn = kn

  pub Keeps-option :
      {A B : Type 0} (o : Option A) (m : Exec B) (f : A → Exec B)
      → Keeps P m
      → ((a : A) → Keeps P (f a))
      → Keeps P (elim o [ none ↦ m | some a ↦ f a ])
  Keeps-option none m f km kf = km
  Keeps-option (some a) m f km kf = kf a

  Keeps-continue :
      {A B : Type 0} (r : Outcome A) (f : A → Exec B)
      → ((a : A) → Keeps P (f a))
      → Keeps P (λ w. continue r f w)
  Keeps-continue (returned a) f kf = kf a
  Keeps-continue (thrown message) f kf = record { at = λ w h. h }

  pub Keeps-bind :
      {A B : Type 0} (m : Exec A) (f : A → Exec B)
      → Keeps P m
      → ((a : A) → Keeps P (f a))
      → Keeps P (m >>= f)
  unfolding ◌>>=◌
  Keeps-bind m f km kf = record {
    at = λ w h. let (r, w') = m w in (Keeps-continue r f kf).at w' (km.at w h);
  }

  Keeps-caught :
      {A : Type 0} (handler : String → Exec A) (r : Outcome A)
      → ((message : String) → Keeps P (handler message))
      → Keeps P (caught handler r)
  Keeps-caught handler (returned a) kh = record { at = λ w h. h }
  Keeps-caught handler (thrown message) kh = record { at = (kh message).at }

  pub Keeps-try_catch :
      {A : Type 0} (m : Exec A) (handler : String → Exec A)
      → Keeps P m
      → ((message : String) → Keeps P (handler message))
      → Keeps P (try_catch m handler)
  unfolding try_catch
  Keeps-try_catch m handler km kh = record {
    at = λ w h. let (r, w') = m w in (Keeps-caught handler r kh).at w' (km.at w h);
  }

module _ (e : Env) {P : World → Type 0} (s : IsSupplied P) where
  pub random_uuid-Keeps : Keeps P (random_uuid e)
  unfolding random_uuid
  random_uuid-Keeps = record { at = s.uuid }

  pub date_now-Keeps : Keeps P (date_now e)
  unfolding date_now
  date_now-Keeps = record { at = s.reading }

  pub now_iso-Keeps : Keeps P (now_iso e)
  unfolding now_iso
  now_iso-Keeps = record { at = s.reading }

  pub random_keypair-Keeps : Keeps P (random_keypair e)
  unfolding random_keypair
  random_keypair-Keeps = record { at = s.key }
