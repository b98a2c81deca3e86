-- ===== src/Prelude/Perms.antt =====
-- Lists that differ in their order.
use mathlib.Core.Path.{◌≡◌, refl, sym, ap, subst}
use mathlib.Core.List.{List, Permᴰ}
use Prim.Native.Nat.{suc}
use native.Mathlib.Omega.{arith}
use flashflow_research.Prelude.Lists.{All, length}

pub All-perm {ℓ} :
    {A : Type ℓ} (P : A → Type 0) {xs ys : List A} → Permᴰ xs ys → All P xs → All P ys
All-perm P Permᴰ.nil h = tt
All-perm P (Permᴰ.cons e p) h = (subst P e h.0, All-perm P p h.1)
All-perm P (Permᴰ.swap e f) h = (subst P f h.1.0, (subst P e h.0, h.1.1))
All-perm P (Permᴰ.trans p q) h = All-perm P q (All-perm P p h)

pub length-perm {ℓ} : {A : Type ℓ} {xs ys : List A} → Permᴰ xs ys → length xs ≡ length ys
length-perm Permᴰ.nil = refl
length-perm (Permᴰ.cons e q) = ap suc (length-perm q)
length-perm (Permᴰ.swap e f) = refl
length-perm (Permᴰ.trans q r) = omega (arith, length-perm q, length-perm r)

pub perm_sym {ℓ} : {A : Type ℓ} {xs ys : List A} → Permᴰ xs ys → Permᴰ ys xs
perm_sym Permᴰ.nil = Permᴰ.nil
perm_sym (Permᴰ.cons e q) = Permᴰ.cons (sym e) (perm_sym q)
perm_sym (Permᴰ.swap e f) = Permᴰ.swap (sym f) (sym e)
perm_sym (Permᴰ.trans q r) = Permᴰ.trans (perm_sym r) (perm_sym q)
