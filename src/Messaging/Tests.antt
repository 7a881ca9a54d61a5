-- ===== src/Messaging/Tests.antt =====
-- A concrete transfer, on which the theorems apply.
use dating_backend.Prelude.{ℕ, ◌≡◌, refl, none, List, [], ◌∷◌, arith}
use dating_backend.Prelude.Int.{pos, negsuc, ◌+ℤ◌}
use dating_backend.Shared.Action.Keeps.{Returns}
use dating_backend.Shared.Table.{lookup}
use dating_backend.Commerce.Wallet.{WalletAccount, WalletLedger, WalletLedgerKind}
use dating_backend.Messaging.Transfers.{
  ChatDb, ChatEnv, ChatTransfer, ChatTransferStatus, ConversationStatus, MemberStatus,
  accept_transfer, is_open,
}
use dating_backend.Messaging.InTransit.{in_transit, transfer_sum, held, moved, is_transfer_kind}
use dating_backend.Messaging.Conservation.{IsConserved}
use dating_backend.Messaging.Requests.{
  TransferRequest, create, accept, cancel, serve_transfer, serve_transfers,
  serve_transfers-IsConserved, expired_accept_fails,
}
use dating_backend.Messaging.Payout.{PaidOut, accept_settles_once}

abbrev env_at : ℕ → ChatEnv
env_at now = record { now = now; wallet_welcome_cents = pos 0; transfer_preview = λ _. "¥" }

abbrev receiver : WalletAccount
receiver = record { user_id = 2; balance_cents = pos 10; frozen_cents = pos 0; version = 0 }

abbrev sender : WalletAccount
sender = record { user_id = 1; balance_cents = pos 50; frozen_cents = pos 0; version = 2 }

abbrev sent : WalletLedger
sent = record {
  id = 0;
  user_id = 1;
  kind = WalletLedgerKind.transfer_out;
  title = "";
  subtitle = none;
  balance_delta_cents = negsuc 49;
  amount_cents = pos 50;
  balance_after_cents = pos 50;
  related_order_id = none;
  method = none;
}

abbrev transfer : ChatTransfer
transfer = record {
  id = 4;
  conversation_id = 9;
  from_user_id = 1;
  to_user_id = 2;
  amount_cents = pos 50;
  status = ChatTransferStatus.pending;
  expires_at = 100;
}

abbrev chat : ChatDb
chat = record {
  wallets = record { accounts = (1, sender) ∷ (2, receiver) ∷ []; ledger = sent ∷ []; next_id = 1 };
  conversations =
      (
        9,
        record {
          status = ConversationStatus.active;
          last_message_preview = none;
          last_message_at = none;
        },
      )
      ∷ [];
  members =
      record { conversation_id = 9; user_id = 1; status = MemberStatus.member_active }
      ∷ record { conversation_id = 9; user_id = 2; status = MemberStatus.member_active }
      ∷ [];
  transfers = (4, transfer) ∷ [];
  next_id = 5;
}

abbrev transfer_requests : List (ChatEnv × TransferRequest)
transfer_requests =
    (env_at 20, create 1 9 2 "2" (pos 30))
    ∷ (env_at 30, accept 2 4)
    ∷ (env_at 40, cancel 1 4)
    ∷ (env_at 50, cancel 1 5)
    ∷ []

chat-IsConserved : IsConserved chat
unfolding lookup in_transit transfer_sum held is_open moved is_transfer_kind ◌+ℤ◌
chat-IsConserved = record {
  total = refl;
  keyed = λ k t e. ground arith;
  fresh = λ k later. ground arith;
}

serve_transfers-IsConserved_example : IsConserved (serve_transfers transfer_requests chat)
serve_transfers-IsConserved_example =
    serve_transfers-IsConserved transfer_requests chat chat-IsConserved

expired_accept_fails_example : serve_transfer (env_at 101) (accept 2 4) chat ≡ chat
expired_accept_fails_example =
    expired_accept_fails (env_at 101) 2 4 chat transfer (unfold lookup in refl) (ground arith)

accept_settles_once_example :
    Returns (PaidOut 2 4 transfer receiver chat) (accept_transfer (env_at 30) 2 4 chat)
accept_settles_once_example =
    accept_settles_once (env_at 30) 2 4 chat transfer receiver (unfold lookup in refl) refl refl
      (unfold is_open in refl) (ground arith) (unfold lookup in refl) refl (ground arith)
      (ground arith)
