-- ===== src/Config/Networks.antt =====
-- The networks that a configuration states.
use flowstatd.Base.{
  All-append, ℕ, suc, ◌+◌, ◌%◌, ◌≤◌, ◌≡◌, arith, List, [], ◌∷◌, ◌++◌, length, length-append, All,
  Option, none, some, Option-cases, inl, inr, Returns, Returns-weaken, >>=-Returns,
}
use flowstatd.Base.Words.{word32}
use flowstatd.Subnet.{Subnet, make_subnet}
use flowstatd.Subnet.Shape.{IsValid, make_subnet-IsValid}
use flowstatd.Lookup.Index.{total}
use flowstatd.Config.Strings.{Text}
use flowstatd.Config.{System, Settings, words, load_network, load_networks}

total-append : (xs ys : List Subnet) → total (xs ++ ys) ≡ total xs + total ys
total-append [] ys = omega arith
total-append (x ∷ xs) ys = omega (arith, total-append xs ys)

-- The subnets are valid with prefix lengths from `least` on, and `sumIpCount` is the number of their
-- addresses, modulo 2^32.
pub record IsCounted (least : ℕ) (st : Settings) : Type 0 where
  pub valid : All IsValid st.nets
  pub long : All (λ s. least ≤ s.mask_bits) st.nets
  pub summed : st.sum_ip_count ≡ total st.nets % word32

module _ (system : System) (least : ℕ) where
  -- An element that is no network, or has a prefix length from `least` to 31.
  abbrev pub HasPrefix : Option (ℕ × ℕ) → Type 0
  HasPrefix none = Unit
  HasPrefix (some (addr, bits)) = (least ≤ bits) × (bits ≤ 31)

  abbrev pub IsProper : Option Text → Type 0
  IsProper none = Unit
  IsProper (some text) = HasPrefix (words system text)

  load_network-IsCounted :
      (element : Option Text) (st : Settings)
      → 1 ≤ least
      → IsProper element
      → IsCounted least st
      → Returns
          (load_network system element st)
          (λ st'. IsCounted least st' × (length st'.nets ≤ suc (length st.nets)))
  unfolding load_network
  load_network-IsCounted none st positive proper counted = (counted, omega arith)
  load_network-IsCounted (some text) st positive proper counted =
      elim (Option-cases (words system text)) [
        | inl e ↦ rw (e, load_network) (counted, omega arith)
        | inr ((addr, bits), e) ↦
            let (from, most) : (least ≤ bits) × (bits ≤ 31) = rw e at proper in
            rw (e, load_network)
              (>>=-Returns (make_subnet addr bits) _
                (λ s. IsValid s × (s.net ≡ addr) × (s.mask_bits ≡ bits)) _
                (make_subnet-IsValid addr bits (omega (arith, positive, from)) most)
                (λ s (valid, _, same). (
                  record {
                    valid = All-append IsValid st.nets (s ∷ []) counted.valid (valid, tt);
                    long =
                        All-append (λ s. least ≤ s.mask_bits) st.nets (s ∷ []) counted.long
                          (omega (arith, same, from), tt);
                    summed = omega (arith, counted.summed, total-append st.nets (s ∷ []));
                  },
                  omega (arith, length-append {A = Subnet} st.nets (s ∷ [])),
                )))
      ]

  -- Elements that are no network are left out; if the others have prefix lengths from
  -- `least` to 31, for a `least` above 0, the loop
  -- over `statedNetworks` leaves valid subnets with such prefix lengths only, with `sumIpCount` the number of their addresses
  -- modulo 2^32, and no more of them than there are elements, so that `rcvNetList` is not left.
  pub load_networks-IsCounted :
      (elements : List (Option Text)) (st : Settings)
      → 1 ≤ least
      → All IsProper elements
      → IsCounted least st
      → Returns
          (load_networks system elements st)
          (λ st'. IsCounted least st' × (length st'.nets ≤ length elements + length st.nets))
  unfolding load_networks
  load_networks-IsCounted [] st positive proper counted = (counted, omega arith)
  load_networks-IsCounted (element ∷ elements) st positive (p, proper) counted =
      >>=-Returns (load_network system element st) (load_networks system elements) _ _
        (load_network-IsCounted element st positive p counted)
        (λ st' k.
          Returns-weaken (load_networks system elements st') _ _
            (load_networks-IsCounted elements st' positive proper k.0)
            (λ end more. (more.0, omega (arith, k.1, more.1))))
