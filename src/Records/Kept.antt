-- ===== src/Records/Kept.antt =====
-- The counters of the table keep values of their C types.
use flowstatd.Base.{
  ℕ, ◌<◌, ◌≡◌, refl, arith, ◌==◌, Bool-cases, inl, inr, load, get_elem?, length-set, Option, none,
  some, All, All-get_elem?, All-set, Whenever, Whenever-Unit, >>=-Whenever, ◌∙◌, List,
}
use flowstatd.Base.Words.{word32, word64}
use flowstatd.Lookup.{get_ip_idx}
use flowstatd.Clock.{Tm, Platform, convert_nf_time}
use flowstatd.Flow.{
  HostFlow, Hour, Totals, Direction, up, down, Role, sent, received, ignored, role, FlowState,
  add64, add_hour, add_totals, add_flow, count_flow, record_flow, apply_role, insert_nf_info,
}
use flowstatd.Flow.Kept.{Keeps}
use flowstatd.Records.Codec.{FitsHour, FitsHost}

-- A loaded cell of an array whose cells have a property.
load-All :
    {A : Type 0} (P : A → Type 0) (xs : List A) (i : ℕ)
    → All P xs
    → Whenever (load (get_elem? xs i)) P
load-All {A = A} P xs i all = cell (get_elem? xs i) refl
  where
    cell : (c : Option A) → get_elem? xs i ≡ c → Whenever (load c) P
    cell none e = tt
    cell (some a) e = All-get_elem? P xs i all e

add64-lt : (x y : ℕ) → add64 x y < word64
add64-lt x y = omega arith

add_hour-FitsHour :
    (dir : Direction) (bytes : ℕ) (h : Hour) → FitsHour h → FitsHour (add_hour dir bytes h)
unfolding add_hour
add_hour-FitsHour up bytes h fits = (add64-lt h.upload bytes, fits.1)
add_hour-FitsHour down bytes h fits = (fits.0, add64-lt h.download bytes)

-- The totals of an entry.
abbrev FitsTotals : Totals → Type 0
FitsTotals t = (t.upload < word64) × (t.download < word64) × (t.sum < word64)

add_totals-FitsTotals :
    (dir : Direction) (bytes : ℕ) (t : Totals) → FitsTotals t → FitsTotals (add_totals dir bytes t)
unfolding add_totals
add_totals-FitsTotals up bytes t fits = (add64-lt t.upload bytes, fits.1, add64-lt t.sum bytes)
add_totals-FitsTotals down bytes t fits = (fits.0, add64-lt t.download bytes, add64-lt t.sum bytes)

add_flow-FitsHost :
    (dir : Direction) (addr hour bytes : ℕ) (host : HostFlow)
    → addr < word32
    → FitsHost host
    → Whenever (add_flow dir addr hour bytes host) FitsHost
unfolding add_flow
add_flow-FitsHost dir addr hour bytes host small fits =
    >>=-Whenever (load (get_elem? host.hflow hour)) _ FitsHour FitsHost
      (load-All FitsHour host.hflow hour fits.hflow)
      λ h fit.
        let totals =
          add_totals-FitsTotals dir bytes host.nflow (fits.upload, fits.download, fits.sum) in
        record {
          sin_addr = small;
          hours = length-set host.hflow hour _ ∙ fits.hours;
          hflow = All-set FitsHour host.hflow hour _ fits.hflow (add_hour-FitsHour dir bytes h fit);
          upload = totals.0;
          download = totals.1;
          sum = totals.2;
        }

-- Every entry has values of its C types.
abbrev pub FitsTable : FlowState → Type 0
FitsTable st = All FitsHost st.ip_table

count_flow-Fits :
    (dir : Direction) (idx addr hour bytes : ℕ) (table : List HostFlow)
    → addr < word32
    → All FitsHost table
    → Whenever (count_flow dir idx addr hour bytes table) (All FitsHost)
unfolding count_flow
count_flow-Fits dir idx addr hour bytes table small fits =
    >>=-Whenever (load (get_elem? table idx)) _ FitsHost (All FitsHost)
      (load-All FitsHost table idx fits)
      λ host fit.
        >>=-Whenever (add_flow dir addr hour bytes host) _ FitsHost (All FitsHost)
          (add_flow-FitsHost dir addr hour bytes host small fit)
          λ host' fit'. All-set FitsHost table idx host' fits fit'

record_flow-FitsTable :
    (dir : Direction) (idx addr bytes : ℕ) (tm : Tm) (st : FlowState)
    → addr < word32
    → FitsTable st
    → Whenever (record_flow dir idx addr bytes tm st) FitsTable
unfolding record_flow
record_flow-FitsTable dir idx addr bytes tm st small fits =
    elim (Bool-cases (tm.tm_mday == st.localtm.tm_mday)) [
      | inr e ↦ rw (e, record_flow) fits
      | inl e ↦
          rw (e, record_flow)
            (>>=-Whenever (count_flow dir idx addr tm.tm_hour bytes st.ip_table) _ (All FitsHost)
              FitsTable (count_flow-Fits dir idx addr tm.tm_hour bytes st.ip_table small fits)
              λ t kept. kept)
    ]

apply_role-FitsTable :
    (r : Role) (src dst bytes : ℕ) (tm : Tm) (st : FlowState)
    → src < word32
    → dst < word32
    → FitsTable st
    → Whenever (apply_role r src dst bytes tm st) FitsTable
unfolding apply_role
apply_role-FitsTable (sent i) src dst bytes tm st fs fd fits =
    record_flow-FitsTable up i src bytes tm st fs fits
apply_role-FitsTable (received j) src dst bytes tm st fs fd fits =
    record_flow-FitsTable down j dst bytes tm st fd fits
apply_role-FitsTable ignored src dst bytes tm st fs fd fits = fits

pub insert_nf_info-FitsTable : (platform : Platform) → Keeps platform FitsTable
unfolding insert_nf_info
insert_nf_info-FitsTable platform src dst bytes info st fs fd fits =
    >>=-Whenever (get_ip_idx st.nets st.my_net src) _ (λ a. Unit {0}) FitsTable
      (Whenever-Unit (get_ip_idx st.nets st.my_net src))
      λ a u.
        >>=-Whenever (get_ip_idx st.nets st.my_net dst) _ (λ b. Unit {0}) FitsTable
          (Whenever-Unit (get_ip_idx st.nets st.my_net dst))
          λ b v.
            apply_role-FitsTable (role a b) src dst bytes (convert_nf_time platform info) st fs fd
              fits
