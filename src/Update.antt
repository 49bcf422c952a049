-- ===== src/Update.antt =====
-- src/flowstatd.c, `Update`: the handler of SIGHUP reloads the whitelist, and a forked process writes the
-- counters of today.
pub mod Restart
use flowstatd.Base.{ℕ, List, Option, none, some, Run, done, ◌>>=◌}
use flowstatd.Flow.{FlowState}
use flowstatd.Records.{export_record}
use flowstatd.Whitelist.{Config, load_whitelist, Loaded}
use flowstatd.Config.Strings.{Text}

-- `exit` of `LoadWhitelist`, or the new whitelist, with the bytes that the forked process writes. The
-- process that goes on keeps its counters.
pub data Updated : Type 0 where
  ends : Updated
  goes_on : List ℕ → List ℕ → Updated

-- `Update`
unfoldable pub update : (Text → ℕ) → Config Text → ℕ → FlowState → List ℕ → Run Updated
update inet_addr config pad st whitelist =
    load_whitelist inet_addr st.nets config whitelist >>= λ w. elim w [
      | Loaded.exits ↦ done ends
      | Loaded.returns n ws ↦ done (goes_on ws (export_record pad st))
    ]
