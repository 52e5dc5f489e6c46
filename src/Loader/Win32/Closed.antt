-- ===== src/Loader/Win32/Closed.antt =====
-- The whole program over win32 leaves no file of a device open.
use iss_notify_firmware.Common.{
  ℕ, ◌<◌, Bool, true, Option, none, some, List, [], Bytes, ◌≡◌, ap, ◌∙◌,
}
use iss_notify_firmware.Loader.Main.{went, main}
use iss_notify_firmware.Loader.Main.Outcome.{Goes, Goes-went}
use iss_notify_firmware.Loader.Main.Keeps.{Keeps, Closed, main-Keeps}
use iss_notify_firmware.Loader.Win32.{Windows, Session, in_time, win32_host, teensy_close}
use iss_notify_firmware.Loader.Win32.Search.{FileTable}
use iss_notify_firmware.Loader.Win32.Files.{Owned, Opened, Rebooted, win32_session-Owned}

module _ {S : Type 0} (sys : Windows S) (table : FileTable sys) where
  Opened-Goes :
      (r : Option (Bool × Session S))
      → Opened sys table r
      → Goes (λ r'. Owned sys table r'.1) (in_time r)
  Opened-Goes none h = tt
  Opened-Goes (some r) h = h.0

  Rebooted-Goes :
      (before : Option ℕ) (r : Option (Bool × Session S))
      → Rebooted sys table before r
      → Goes (λ r'. Owned sys table r'.1) (in_time r)
  Rebooted-Goes before none h = tt
  Rebooted-Goes before (some r) h = h.0

  win32_host-Keeps :
      (fuel : ℕ) (delay : Session S → Session S) (content : Bytes → Session S → Option Bytes)
      → table.limit < fuel
      → ((st : Session S) → Owned sys table st → Owned sys table (delay st))
      → Keeps (win32_host sys fuel delay content) (Owned sys table)
  win32_host-Keeps fuel delay content enough keeps = record {
    opening =
        λ st owned. Opened-Goes _ (win32_session-Owned sys table fuel st [] true enough owned).0;
    writing = λ st buf long owned. (win32_session-Owned sys table fuel st buf long enough owned).2;
    rebooting = λ st owned.
        Rebooted-Goes _ _ (win32_session-Owned sys table fuel st [] true enough owned).3;
    delaying = keeps;
  }

  -- If no enumeration has an interface whose number is the limit or more, the fuel of a search is
  -- above the limit, only `CreateFile` opens a file, only `CloseHandle` closes one, and the delay
  -- leaves them alone: when `main` over win32 begins with no open file but the one in
  -- `win32_teensy_handle`, and ends without an error, no file is open and the variable is empty.
  pub win32_main-closed :
      (fuel rounds : ℕ) (delay : Session S → Session S) (content : Bytes → Session S → Option Bytes)
      (args : List Bytes) (st st' : Session S)
      → table.limit < fuel
      → ((x : Session S) → Owned sys table x → Owned sys table (delay x))
      → Owned sys table st
      → main (win32_host sys fuel delay content) rounds args st ≡ some (went st')
      → (table.held st'.system ≡ []) × (st'.win32_teensy_handle ≡ none)
  unfolding teensy_close
  win32_main-closed fuel rounds delay content args st st' enough keeps owned h =
      let host = win32_host sys fuel delay content in
      let (last, e, own) =
        Goes-went (Closed host (Owned sys table)) (main host rounds args st) st'
          (main-Keeps host (Owned sys table) (win32_host-Keeps fuel delay content enough keeps)
            rounds args st owned)
          h in
      (
        ap (λ (x : Session S). table.held x.system) e
            ∙ (win32_session-Owned sys table fuel last [] true enough own).1,
        ap (λ (x : Session S). x.win32_teensy_handle) e,
      )
