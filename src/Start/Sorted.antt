-- ===== src/Start/Sorted.antt =====
-- What sorting the subnets keeps.
use mathlib.Core.List.{Permᴰ}
use flowstatd.Base.{◌≡◌, refl, arith, ap, subst, ◌∙◌, sym, List, All}
use flowstatd.Subnet.{Subnet}
use flowstatd.Lookup.Index.{total}

pub All-Permᴰ {ℓ κ} :
    {A : Type ℓ} (P : A → Type κ) {xs ys : List A} → Permᴰ xs ys → All P ys → All P xs
All-Permᴰ P Permᴰ.nil h = h
All-Permᴰ P (Permᴰ.cons e p) (h, hs) = (subst P (sym e) h, All-Permᴰ P p hs)
All-Permᴰ P (Permᴰ.swap e f) (h, (k, hs)) = (subst P (sym e) k, (subst P (sym f) h, hs))
All-Permᴰ P (Permᴰ.trans p q) h = All-Permᴰ P p (All-Permᴰ P q h)

pub total-Permᴰ : {xs ys : List Subnet} → Permᴰ xs ys → total xs ≡ total ys
total-Permᴰ Permᴰ.nil = refl
total-Permᴰ (Permᴰ.cons e p) = omega (arith, ap (λ (s : Subnet). s.ip_count) e, total-Permᴰ p)
total-Permᴰ (Permᴰ.swap e f) =
    omega (arith, ap (λ (s : Subnet). s.ip_count) e, ap (λ (s : Subnet). s.ip_count) f)
total-Permᴰ (Permᴰ.trans p q) = total-Permᴰ p ∙ total-Permᴰ q
