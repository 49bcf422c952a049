-- ===== src/Records/Overlay.antt =====
-- `gzread` of arrays into arrays.
use flowstatd.Base.{ℕ, ◌≤◌, ◌≡◌, refl, sym, ◌∙◌, ap, arith, List, [], ◌∷◌, ◌++◌, length, drop, All}
use flowstatd.Subnet.{Subnet}
use flowstatd.Flow.{Hour, HostFlow}
use flowstatd.Records.Bytes.{put_le, overlay, after, overlay-put_le, after-put_le}
use flowstatd.Records.Layout.{put_subnet, put_hours, put_host, put_subnets, put_hosts, get_hosts}
use flowstatd.Records.Codec.{FitsHost, get_host-put_host, drop-put_host, get_hosts-put_hosts}

module _ (object stream : List ℕ) where
  overlay-put_hours :
      (hs ks : List Hour)
      → length hs ≡ length ks
      → overlay (put_hours hs object) (put_hours ks stream) ≡ put_hours ks (overlay object stream)
  unfolding put_hours
  overlay-put_hours [] [] e = refl
  overlay-put_hours [] (k ∷ ks) e = absurd (omega arith)
  overlay-put_hours (h ∷ hs) [] e = absurd (omega arith)
  overlay-put_hours (h ∷ hs) (k ∷ ks) e = rw (
    overlay-put_le 8 h.upload k.upload (put_le 8 h.download (put_hours hs object))
        (put_le 8 k.download (put_hours ks stream)),
    overlay-put_le 8 h.download k.download (put_hours hs object) (put_hours ks stream),
    overlay-put_hours hs ks (omega (arith, e)),
  )

  after-put_hours :
      (hs ks : List Hour)
      → length hs ≡ length ks
      → after (put_hours hs object) (put_hours ks stream) ≡ after object stream
  unfolding put_hours
  after-put_hours [] [] e = refl
  after-put_hours [] (k ∷ ks) e = absurd (omega arith)
  after-put_hours (h ∷ hs) [] e = absurd (omega arith)
  after-put_hours (h ∷ hs) (k ∷ ks) e =
      rw
        (
          after-put_le 8 h.upload k.upload (put_le 8 h.download (put_hours hs object))
              (put_le 8 k.download (put_hours ks stream)),
          after-put_le 8 h.download k.download (put_hours hs object) (put_hours ks stream),
        )
        (after-put_hours hs ks (omega (arith, e)))

  overlay-put_subnet :
      (pad pad' : ℕ) (s t : Subnet)
      → overlay (put_subnet pad s object) (put_subnet pad' t stream)
        ≡ put_subnet pad' t (overlay object stream)
  unfolding put_subnet
  overlay-put_subnet pad pad' s t = rw (
    overlay-put_le 4 s.net t.net _ _,
    overlay-put_le 4 s.mask t.mask _ _,
    overlay-put_le 1 s.mask_bits t.mask_bits _ _,
    overlay-put_le 3 pad pad' _ _,
    overlay-put_le 4 s.ip_count t.ip_count _ _,
  )

  after-put_subnet :
      (pad pad' : ℕ) (s t : Subnet)
      → after (put_subnet pad s object) (put_subnet pad' t stream) ≡ after object stream
  unfolding put_subnet
  after-put_subnet pad pad' s t = rw (
    after-put_le 4 s.net t.net _ _,
    after-put_le 4 s.mask t.mask _ _,
    after-put_le 1 s.mask_bits t.mask_bits _ _,
    after-put_le 3 pad pad' _ _,
    after-put_le 4 s.ip_count t.ip_count _ _,
  )

module _ (pad pad' : ℕ) (object stream : List ℕ) where
  overlay-put_host :
      (s t : HostFlow)
      → FitsHost s
      → FitsHost t
      → overlay (put_host pad s object) (put_host pad' t stream)
        ≡ put_host pad' t (overlay object stream)
  unfolding put_host
  overlay-put_host s t fs ft = rw (
    overlay-put_le 4 s.sin_addr t.sin_addr _ _,
    overlay-put_le 4 pad pad' _ _,
    overlay-put_hours _ _ s.hflow t.hflow (fs.hours ∙ sym ft.hours),
    overlay-put_le 8 s.nflow.upload t.nflow.upload _ _,
    overlay-put_le 8 s.nflow.download t.nflow.download _ _,
    overlay-put_le 8 s.nflow.sum t.nflow.sum _ _,
  )

  pub overlay-put_subnets :
      (xs ys : List Subnet)
      → length xs ≡ length ys
      → overlay (put_subnets pad xs object) (put_subnets pad' ys stream)
        ≡ put_subnets pad' ys (overlay object stream)
  unfolding put_subnets
  overlay-put_subnets [] [] e = refl
  overlay-put_subnets [] (y ∷ ys) e = absurd (omega arith)
  overlay-put_subnets (x ∷ xs) [] e = absurd (omega arith)
  overlay-put_subnets (x ∷ xs) (y ∷ ys) e =
      overlay-put_subnet (put_subnets pad xs object) (put_subnets pad' ys stream) pad pad' x y
      ∙ ap (put_subnet pad' y) (overlay-put_subnets xs ys (omega (arith, e)))

  pub after-put_subnets :
      (xs ys : List Subnet)
      → length xs ≡ length ys
      → after (put_subnets pad xs object) (put_subnets pad' ys stream) ≡ after object stream
  unfolding put_subnets
  after-put_subnets [] [] e = refl
  after-put_subnets [] (y ∷ ys) e = absurd (omega arith)
  after-put_subnets (x ∷ xs) [] e = absurd (omega arith)
  after-put_subnets (x ∷ xs) (y ∷ ys) e =
      after-put_subnet (put_subnets pad xs object) (put_subnets pad' ys stream) pad pad' x y
      ∙ after-put_subnets xs ys (omega (arith, e))

overlay-nil : (object : List ℕ) → overlay object [] ≡ object
unfolding overlay
overlay-nil [] = refl
overlay-nil (m ∷ object) = refl

-- A longer array keeps its last elements.
pub overlay-put_hosts :
    (pad pad' : ℕ) (xs ys : List HostFlow)
    → length ys ≤ length xs
    → All FitsHost xs
    → All FitsHost ys
    → overlay (put_hosts pad xs []) (put_hosts pad' ys [])
      ≡ put_hosts pad' ys (put_hosts pad (drop (length ys) xs) [])
unfolding put_hosts
overlay-put_hosts pad pad' xs [] h fx fy = overlay-nil (put_hosts pad xs [])
overlay-put_hosts pad pad' [] (y ∷ ys) h fx fy = absurd (omega arith)
overlay-put_hosts pad pad' (x ∷ xs) (y ∷ ys) h (x_fits, fx) (y_fits, fy) =
    overlay-put_host pad pad' (put_hosts pad xs []) (put_hosts pad' ys []) x y x_fits y_fits
    ∙ ap (put_host pad' y) (overlay-put_hosts pad pad' xs ys (omega arith) fx fy)

pub get_hosts-put_hosts_over :
    (pad pad' : ℕ) (xs ys : List HostFlow)
    → length ys ≤ length xs
    → All FitsHost xs
    → All FitsHost ys
    → get_hosts (length xs) (put_hosts pad' ys (put_hosts pad (drop (length ys) xs) []))
      ≡ ys ++ drop (length ys) xs
unfolding get_hosts put_hosts
get_hosts-put_hosts_over pad pad' xs [] h fx fy = get_hosts-put_hosts pad xs [] fx
get_hosts-put_hosts_over pad pad' [] (y ∷ ys) h fx fy = absurd (omega arith)
get_hosts-put_hosts_over pad pad' (x ∷ xs) (y ∷ ys) h (x_fits, fx) (y_fits, fy) =
    let later = put_hosts pad' ys (put_hosts pad (drop (length ys) xs) []) in
    rw (
      get_host-put_host pad' y later y_fits,
      drop-put_host pad' y later y_fits,
      get_hosts-put_hosts_over pad pad' xs ys (omega arith) fx fy,
    )
