-- ===== src/Loader/Uhid/Closed.antt =====
-- The whole program over uhid leaves no file open.
use iss_notify_firmware.Common.{ℕ, Bool, true, Option, none, some, List, [], Bytes, ◌≡◌, ap, ◌∙◌}
use iss_notify_firmware.Loader.Main.{went, main}
use iss_notify_firmware.Loader.Main.Outcome.{Goes, Goes-went}
use iss_notify_firmware.Loader.Main.Keeps.{Keeps, Closed, main-Keeps}
use iss_notify_firmware.Loader.Uhid.{Unix, Session, or_exit, uhid_host, teensy_close}
use iss_notify_firmware.Loader.Uhid.Files.{FileTable, Owned, OwnedAfter, session-Owned}

module _ {S : Type 0} (sys : Unix S) (table : FileTable sys) where
  or_exit-Goes :
      (r : Option (Bool × Session S))
      → OwnedAfter sys table r
      → Goes (λ r'. Owned sys table r'.1) (or_exit r)
  or_exit-Goes none h = tt
  or_exit-Goes (some r) h = h

  uhid_host-Keeps :
      (content : Bytes → Session S → Option Bytes) → Keeps (uhid_host sys content) (Owned sys table)
  uhid_host-Keeps content = record {
    opening = λ st owned. or_exit-Goes _ (session-Owned sys table st [] true owned).0;
    writing = λ st buf long owned. (session-Owned sys table st buf long owned).2;
    rebooting = λ st owned. or_exit-Goes _ (session-Owned sys table st [] true owned).3;
    delaying = λ st owned. table.delays st.unix ∙ owned;
  }

  -- If only `open` opens a file and only `close` closes one: when `main` over uhid begins with no
  -- open file but the one in `uhid_teensy_fd`, and ends without an error, so that no function has
  -- called `die`, no file is open and the variable is empty.
  pub uhid_main-closed :
      (content : Bytes → Session S → Option Bytes) (fuel : ℕ) (args : List Bytes)
      (st st' : Session S)
      → Owned sys table st
      → main (uhid_host sys content) fuel args st ≡ some (went st')
      → (table.held st'.unix ≡ []) × (st'.uhid_teensy_fd ≡ none)
  unfolding teensy_close
  uhid_main-closed content fuel args st st' owned h =
      let host = uhid_host sys content in
      let (last, e, own) =
        Goes-went (Closed host (Owned sys table)) (main host fuel args st) st'
          (main-Keeps host (Owned sys table) (uhid_host-Keeps content) fuel args st owned) h in
      (
        ap (λ (x : Session S). table.held x.unix) e ∙ (session-Owned sys table last [] true own).1,
        ap (λ (x : Session S). x.uhid_teensy_fd) e,
      )
