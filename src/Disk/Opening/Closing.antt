-- ===== src/Disk/Opening/Closing.antt =====
-- `Close` of a disk that `Open` has opened: what it gives back, also where a step of it fails.
use virtual_disks.Base.{ℕ, ◌≡◌, ◌≢◌, ap, ◌∙◌, ◌⊎◌, inl, inr, subst, Option, none, some, ◌∷◌, String}
use virtual_disks.Vddk.{World}
use virtual_disks.Effects.{Prog, Machine, ret, run, ◌>>=◌, Ensures, Ensures-bind}
use virtual_disks.Disklib.Types.{ConnectParams, vix_ok}
use virtual_disks.Disklib.Session.{end_access, disconnect}
use virtual_disks.Disklib.Images
use virtual_disks.Disklib.Log.{
  Log, logging, ends, disconnects, closes, end-Logs, disconnect-Logs, close-Logs,
}
use virtual_disks.Disk.Handle.{GoError, DiskConnectHandle}
use virtual_disks.Disk.Logged.{step_or_error}
use virtual_disks.Disk.Methods
use virtual_disks.Disk.Stream
use virtual_disks.Disk.Opening.{Fresh, Opened, open_stream}
use virtual_disks.Disk.Opening.Asked.{taken, IsRefused, IsOpened, open_stream-IsOpened}

-- The disk, the connection and the access have been given back, each granted by the library; or a
-- step was refused, and nothing was asked for behind it.
abbrev pub IsClosed : (identity : String) → (conn dli : ℕ) → Log → Option GoError → Log → Type 0
IsClosed identity conn dli before none now =
    now ≡ ends identity vix_ok ∷ disconnects conn vix_ok ∷ closes dli vix_ok ∷ before
IsClosed identity conn dli before (some e) now =
    (code : ℕ) × (code ≢ vix_ok)
    × ((now ≡ closes dli code ∷ before)
        ⊎ ((now ≡ disconnects conn code ∷ closes dli vix_ok ∷ before)
            ⊎ (now ≡ ends identity code ∷ disconnects conn vix_ok ∷ closes dli vix_ok ∷ before)))

module _ (W : World) where
  close-IsClosed :
      (h : DiskConnectHandle) (s : Machine (logging W))
      → Ensures
          (run (Methods.close h) s)
          (λ e t. IsClosed h.params.identity h.conn h.dli s.lib.0 e t.lib.0)
  unfolding Methods.close run
  close-IsClosed h s =
      let identity = h.params.identity in
      step_or_error W s (Images.close h.dli) (closes h.dli) _ _ _ (close-Logs W s h.dli)
        (λ x t code refused at. (code, refused, inl at))
        (λ t at.
          step_or_error W t (disconnect h.conn) (disconnects h.conn) _ _ _
            (disconnect-Logs W t h.conn)
            (λ x u code refused at'.
              (code, refused, inr (inl (at' ∙ ap (◌∷◌ (disconnects h.conn code)) at))))
            (λ u at'.
              let at = at' ∙ ap (◌∷◌ (disconnects h.conn vix_ok)) at in
              step_or_error W u (end_access h.params) (ends identity) _ _ _ (end-Logs W u h.params)
                (λ x v code refused at'.
                  (code, refused, inr (inr (at' ∙ ap (◌∷◌ (ends identity code)) at))))
                (λ v at'. at' ∙ ap (◌∷◌ (ends identity vix_ok)) at)))

-- `Close` of the stream, if there is one.
abbrev close_opened : Opened → Prog (Opened × Option GoError)
close_opened (none, err) = ret ((none, err), none)
close_opened (some d, err) = Stream.close d >>= λ e. ret ((some d, err), e)

pub open_and_close : Fresh → ConnectParams → Prog (Opened × Option GoError)
open_and_close fresh params = open_stream fresh params >>= close_opened

-- `Open` has failed and given back what it had, or `Close` has worked on what `Open` took.
abbrev pub IsOver : (identity : String) → Log → Opened × Option GoError → Log → Type 0
IsOver identity before ((none, some err), none) now = IsRefused identity before now
IsOver identity before ((none, some err), some e) now = ⊥
IsOver identity before ((none, none), e) now = ⊥
IsOver identity before ((some d, some err), e) now = ⊥
IsOver identity before ((some d, none), e) now =
    (conn : ℕ) × (dli : ℕ) × IsClosed identity conn dli (taken identity conn dli before) e now

module _ (W : World) (fresh : Fresh) (params : ConnectParams) where
  closed_or_refused :
      (before : Log) (r : Opened) (s : Machine (logging W))
      → IsOpened params before r s.lib.0
      → Ensures (run (close_opened r) s) (λ x t. IsOver params.identity before x t.lib.0)
  unfolding run Stream.close
  closed_or_refused before (none, some err) s refused = refused
  closed_or_refused before (none, none) s h = absurd h
  closed_or_refused before (some d, some e) s h = absurd h
  closed_or_refused before (some d, none) s (own, at) =
      Ensures-bind (Methods.close d.disk_handle) _ s
        (λ e t.
          IsClosed d.disk_handle.params.identity d.disk_handle.conn d.disk_handle.dli s.lib.0 e
            t.lib.0)
        _ (close-IsClosed W d.disk_handle s)
        (λ e t closed. (
          d.disk_handle.conn,
          d.disk_handle.dli,
          subst (λ log. IsClosed params.identity d.disk_handle.conn d.disk_handle.dli log e t.lib.0)
              at
              (subst
                (λ (p : ConnectParams).
                  IsClosed p.identity d.disk_handle.conn d.disk_handle.dli s.lib.0 e t.lib.0)
                own closed),
        ))

  -- `Open`, and `Close` of the disk that it gives, end whatever the library answers. If both succeed,
  -- the library has granted an access, a connection and a disk and has described it, and then that disk
  -- has been closed, that connection disconnected and that access ended, each with the code for
  -- success; of accesses, connections and disks nothing else has been asked for. If `Close` fails, one
  -- of its three steps was answered with another code, those before it with success, and the steps
  -- behind it were not asked for. If `Open` fails, the access was refused; or the connection was, and
  -- the end of the access was asked for; or the disk was refused or its description was, and then the
  -- end of the connection and of the access was asked for, but not that of the disk.
  pub open_and_close-IsOver :
      (s : Machine (logging W))
      → Ensures
          (run (open_and_close fresh params) s)
          (λ r t. IsOver params.identity s.lib.0 r t.lib.0)
  unfolding open_and_close
  open_and_close-IsOver s =
      Ensures-bind (open_stream fresh params) close_opened s
        (λ r t. IsOpened params s.lib.0 r t.lib.0) _ (open_stream-IsOpened W fresh params s)
        (λ r t h. closed_or_refused s.lib.0 r t h)
