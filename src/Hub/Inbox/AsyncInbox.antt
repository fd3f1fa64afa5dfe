-- ===== src/Hub/Inbox/AsyncInbox.antt =====
-- `AsyncClientInbox` (iothub/aio/async_inbox.py), whose queue has the items of a list as well: its
-- methods but `clear` are those of `SyncClientInbox`.
use azure_iot_sdk_python_pre.Prelude.{
  ℕ, zero, suc, ◌<◌, ◌≡◌, Option, none, some, [], ◌∷◌, length, arith,
}
use azure_iot_sdk_python_pre.Hub.Inbox.{Inbox, get}

-- `clear` of `SyncClientInbox`
abbrev pub clear : Inbox → Inbox
clear q = []

-- `clear`, which takes items until there is none, in at most so many rounds; `none` is not done.
unfoldable pub async_clear : ℕ → Inbox → Option Inbox
unfolding get
async_clear zero q = none
async_clear (suc fuel) q = elim (get q).0 [ none ↦ some q | some i ↦ async_clear fuel (get q).1 ]

-- The loop of the asynchronous inbox ends, after one round for each item and one more, with what
-- the synchronous one leaves at once, if nothing is put into the inbox meanwhile.
pub async_clear-eq-clear :
    (fuel : ℕ) (q : Inbox) → length q < fuel → async_clear fuel q ≡ some (clear q)
unfolding async_clear get
async_clear-eq-clear zero q enough = ground (arith, enough)
async_clear-eq-clear (suc fuel) [] enough = ground arith
async_clear-eq-clear (suc fuel) (i ∷ q) enough = async_clear-eq-clear fuel q (omega (arith, enough))
