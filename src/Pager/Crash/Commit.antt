-- ===== src/Pager/Crash/Commit.antt =====
-- A whole transaction, from `begin_write` on, with a crash at any point of its commit.
use rustqlite.Base.{◌≡◌, ap, none}
use rustqlite.Base.Bytes.{copy_at}
use rustqlite.Format.Header.{serialize}
use rustqlite.Pager.State.{Pager}
use rustqlite.Pager.Pages.{with_header_mut}
use rustqlite.Pager.Txn.{stamp, stamp_header}
use rustqlite.Pager.Recovery.{Disk, recover_hot_journal, recover_from}
use rustqlite.Pager.Journaling.{modify_page}
use rustqlite.Pager.Journaling.Steps.{ChangeSteps, then_change, changes_header, modifies}

-- Stamping the header is one of the changes of the transaction.
pub ChangeSteps-stamp_header : (p q : Pager) → ChangeSteps p q → ChangeSteps p (stamp_header q).0
unfolding stamp_header modify_page
ChangeSteps-stamp_header p q steps =
    let stamped : Pager = with_header_mut (stamp q.state.page_count) q in
    then_change stamped _ (then_change q stamped steps (changes_header (stamp q.state.page_count)))
      (modifies 1 (copy_at 0 (serialize stamped.state.header)))

-- Nothing is recovered without a journal.
pub recover-none : (d : Disk) → d.journal ≡ none → (recover_hot_journal d).0.database ≡ d.database
unfolding recover_hot_journal recover_from
recover-none d gone = ap (λ o. (recover_from d o).0.database) gone
