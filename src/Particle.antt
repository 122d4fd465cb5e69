-- ===== src/Particle.antt =====
-- case_studies/pic/include/particle.h and case_studies/pic/src/particle.c, without the field that the
-- correctness checker adds.
use optitrust.Reals.{Reals}

pub record Vect (S : Type 0) : Type 0 where
  pub x : S
  pub y : S
  pub z : S

pub record Particle (S : Type 0) : Type 0 where
  pub pos : Vect S
  pub speed : Vect S

module _ {S : Type 0} (R : Reals S) where
  unfoldable pub vect_add : Vect S → Vect S → Vect S
  vect_add v1 v2 = record { x = R.add v1.x v2.x; y = R.add v1.y v2.y; z = R.add v1.z v2.z }

  unfoldable pub vect_mul : S → Vect S → Vect S
  vect_mul d v = record { x = R.mul d v.x; y = R.mul d v.y; z = R.mul d v.z }
