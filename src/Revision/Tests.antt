-- ===== src/Revision/Tests.antt =====
-- A contract of 100 and 20, and a payment of 30 that risks 5.
use hostscore.Prelude.{◌≡◌, ◌↔◌, refl, Option, some, none}
use hostscore.Currency.{exact_ops, exact_laws}
use hostscore.Revision.{Revision, RevisionError, update_revision_outputs, move}
use hostscore.Revision.Payment.{contract, Payable, Paid, update_revision_outputs-Paid}

update_revision_outputs-Paid_example :
    (r : Revision) × (e : Option RevisionError) × (update_revision_outputs exact_ops
        (contract 100 20 100 20 0)
        30
        5
      ≡ some (r, e))
    × ((e ≡ none) ↔ Payable 100 20 100 20 0 30 5)
    × ((e ≡ none) → Paid 100 20 100 20 0 30 5 r)
update_revision_outputs-Paid_example = update_revision_outputs-Paid exact_laws 100 20 100 20 0 30 5

payment :
    update_revision_outputs exact_ops (contract 100 20 100 20 0) 30 5
    ≡ some (contract 70 50 70 15 35, none)
unfolding update_revision_outputs move exact_ops
payment = refl
