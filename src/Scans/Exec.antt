-- ===== src/Scans/Exec.antt =====
-- Code that writes to the tables and may raise: what was written before an exception stays.
use compliance_engine.Common.{Result, ok, err}
use compliance_engine.Json.{PyError}
use compliance_engine.Scans.Rows.{World}

abbrev pub Exec : Type 0 → Type 0
Exec A = World → Result PyError A × World

abbrev pub proceed :
    {A B : Type 0} → Result PyError A × World → (A → Exec B) → Result PyError B × World
proceed (ok a, w) k = k a w
proceed (err e, w) k = (err e, w)

infixl 5 ◌>>=◌ ◌>>◌
unfoldable pub ◌>>=◌ : {A B : Type 0} → Exec A → (A → Exec B) → Exec B
◌>>=◌ m k w = proceed (m w) k

unfoldable pub ◌>>◌ : {A B : Type 0} → Exec A → Exec B → Exec B
◌>>◌ m n w = proceed (m w) (λ _. n)

-- A computation that does not touch the tables.
unfoldable pub lift : {A : Type 0} → Result PyError A → Exec A
lift r w = (r, w)

unfoldable pub raise : {A : Type 0} → PyError → Exec A
raise e w = (err e, w)

unfoldable pub modify : (World → World) → Exec (Unit {0})
modify f w = (ok tt, f w)

-- A query.
unfoldable pub gets : {A : Type 0} → (World → A) → Exec A
gets f w = (ok (f w), w)

unfoldable pub done : Exec (Unit {0})
done w = (ok tt, w)

-- Whatever `m` does to the tables, `P` survives it.
abbrev pub Keeps : {A : Type 0} → (World → Type 0) → Exec A → Type 0
Keeps P m = (w : World) → P w → P (m w).1

pub proceed-keeps :
    {A B : Type 0} (P : World → Type 0) (m : Result PyError A × World) (k : A → Exec B)
    → P m.1
    → ((a : A) → Keeps P (k a))
    → P (proceed m k).1
proceed-keeps P (ok a, w) k h next = next a w h
proceed-keeps P (err e, w) k h next = h

pub bind-Keeps :
    {A B : Type 0} (P : World → Type 0) (m : Exec A) (k : A → Exec B)
    → Keeps P m
    → ((a : A) → Keeps P (k a))
    → Keeps P (m >>= k)
unfolding ◌>>=◌
bind-Keeps P m k h next w start = proceed-keeps P (m w) k (h w start) next

pub seq-Keeps :
    {A B : Type 0} (P : World → Type 0) (m : Exec A) (k : Exec B)
    → Keeps P m
    → Keeps P k
    → Keeps P (m >> k)
unfolding ◌>>◌
seq-Keeps P m k h next w start = proceed-keeps P (m w) (λ _. k) (h w start) (λ _. next)
