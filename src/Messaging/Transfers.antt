-- ===== src/Messaging/Transfers.antt =====
-- `create_transfer`, `accept_transfer` and `cancel_transfer` of app/modules/messaging/service.py, over
-- the wallets of app/modules/commerce/wallet.py.
use dating_backend.Prelude.{
  ℕ, ◌+◌, ◌*◌, String, Bool, true, false, Option, none, some, List, ◌&&◌, not, ◌==◌, ltb,
  if◌then◌else◌, filter,
}
use dating_backend.Prelude.Int.{ℤ, pos, ltb_ℤ}
use dating_backend.Shared.Errors.{
  app_error, order_invalid, chat_not_found, chat_forbidden, chat_invalid,
}
use dating_backend.Shared.Action.{
  Action, pure, raise, gets, modify, or_raise, raise_if, on_part, ◌>>=◌, ◌>>◌,
}
use dating_backend.Shared.Table.{Table, lookup, insert, one_or_none}
use dating_backend.Commerce.Wallet.{Wallet, WalletLedgerKind, Posting, charge, credit}

pub data ChatTransferStatus : Type 0 where
  pending accepted expired cancelled refunded : ChatTransferStatus

pub data ConversationStatus : Type 0 where
  active archived dissolved : ConversationStatus

pub data MemberStatus : Type 0 where
  member_active left kicked : MemberStatus

pub record Conversation : Type 0 where
  pub status : ConversationStatus
  pub last_message_preview : Option String
  pub last_message_at : Option ℕ

pub record ConversationMember : Type 0 where
  pub conversation_id : ℕ
  pub user_id : ℕ
  pub status : MemberStatus

pub record ChatTransfer : Type 0 where
  pub id : ℕ
  pub conversation_id : ℕ
  pub from_user_id : ℕ
  pub to_user_id : ℕ
  pub amount_cents : ℤ
  pub status : ChatTransferStatus
  pub expires_at : ℕ

pub record ChatDb : Type 0 where
  pub wallets : Wallet
  pub conversations : Table Conversation
  pub members : List ConversationMember
  pub transfers : Table ChatTransfer
  pub next_id : ℕ

-- The clock, the setting, and the preview text of a transfer.
pub record ChatEnv : Type 0 where
  pub now : ℕ
  pub wallet_welcome_cents : ℤ
  pub transfer_preview : ℤ → String

unfoldable pub in_wallets : {A : Type 0} → Action Wallet A → Action ChatDb A
in_wallets = on_part (λ db. db.wallets) (λ w db. record db { wallets = w })

unfoldable pub is_dissolved : ConversationStatus → Bool
is_dissolved dissolved = true
is_dissolved _ = false

unfoldable pub is_active_conversation : ConversationStatus → Bool
is_active_conversation active = true
is_active_conversation _ = false

unfoldable pub is_active_member : MemberStatus → Bool
is_active_member member_active = true
is_active_member _ = false

-- `conv is None or conv.status == DISSOLVED`
unfoldable pub live : Option Conversation → Option Conversation
unfolding is_dissolved
live none = none
live (some conv) = if is_dissolved conv.status then none else some conv

unfoldable pub is_member : ℕ → ℕ → ConversationMember → Bool
unfolding is_active_member
is_member conversation_id user_id m =
    m.conversation_id == conversation_id && (m.user_id == user_id && is_active_member m.status)

unfoldable pub get_conversation : ℕ → ℕ → Action ChatDb Conversation
unfolding live is_member
get_conversation user_id conversation_id = do
  found ← gets (λ db. lookup conversation_id db.conversations)
  conv ← or_raise (live found) (app_error chat_not_found 404)
  members ← gets (λ db. filter (is_member conversation_id user_id) db.members)
  member ← one_or_none members
  or_raise member (app_error chat_forbidden 403)
  pure conv

unfoldable pub touched :
    ℕ → String → Option Conversation → ℕ → Table Conversation → Table Conversation
touched now preview none conversation_id t = t
touched now preview (some conv) conversation_id t =
    insert conversation_id
      (record conv { last_message_preview = some preview; last_message_at = some now }) t

unfoldable pub touch_conversation : ℕ → ℕ → String → Action ChatDb (Unit {0})
unfolding touched
touch_conversation now conversation_id preview = modify (λ db. record db {
  conversations =
      touched now preview (lookup conversation_id db.conversations) conversation_id
        db.conversations;
})

unfoldable pub save_transfer : ChatTransfer → Action ChatDb (Unit {0})
save_transfer t = modify (λ db. record db { transfers = insert t.id t db.transfers })

unfoldable pub is_open : ChatTransferStatus → Bool
is_open pending = true
is_open _ = false

abbrev pub transfer_posting : WalletLedgerKind → String → Option String → Posting
transfer_posting kind title subtitle = record {
  kind = kind;
  title = title;
  subtitle = subtitle;
  related_order_id = none;
  method = some "wallet";
}

abbrev pub out_posting : String → Posting
out_posting to_name =
    transfer_posting WalletLedgerKind.transfer_out "聊天转账"
      (some (Prim.Native.String.◌++◌ "to " to_name))

-- The transfer, where there is one and this user may act on it.
unfoldable pub addressed : (ChatTransfer → ℕ) → ℕ → Option ChatTransfer → Option ChatTransfer
addressed party user_id none = none
addressed party user_id (some t) = if party t == user_id then some t else none

module _ (env : ChatEnv) where
  unfoldable pub new_transfer : ℕ → ℕ → ℕ → ℕ → ℤ → ChatTransfer
  new_transfer id user_id conversation_id to_user_id amount_cents = record {
    id = id;
    conversation_id = conversation_id;
    from_user_id = user_id;
    to_user_id = to_user_id;
    amount_cents = amount_cents;
    status = pending;
    expires_at = env.now + 24 * 3600;
  }

  -- The row of a transfer with the next unused number.
  unfoldable pub add_transfer : ℕ → ℕ → ℕ → ℤ → Action ChatDb ChatTransfer
  unfolding new_transfer
  add_transfer user_id conversation_id to_user_id amount_cents db =
      let t = new_transfer db.next_id user_id conversation_id to_user_id amount_cents in
      pure t (record db { transfers = insert db.next_id t db.transfers; next_id = db.next_id + 1 })

  -- `to_name` is the text of `to_user_id`.
  unfoldable pub create_transfer : ℕ → ℕ → ℕ → String → ℤ → Action ChatDb ChatTransfer
  unfolding add_transfer
  create_transfer user_id conversation_id to_user_id to_name amount_cents = do
    raise_if (ltb_ℤ amount_cents (pos 1)) (app_error order_invalid 400)
    get_conversation user_id conversation_id
    raise_if (to_user_id == user_id) (app_error chat_invalid 400)
    in_wallets (charge env.wallet_welcome_cents user_id amount_cents (out_posting to_name))
    t ← add_transfer user_id conversation_id to_user_id amount_cents
    touch_conversation env.now conversation_id (env.transfer_preview amount_cents)
    pure t

  -- The transfer closed with a status, and its amount credited to a wallet.
  unfoldable pub pay_out :
      ChatTransferStatus → WalletLedgerKind → String → ℕ → ChatTransfer → Action ChatDb ChatTransfer
  pay_out status kind title user_id t = do
    save_transfer (record t { status = status })
    in_wallets
        (credit env.wallet_welcome_cents user_id t.amount_cents (transfer_posting kind title none))
    pure (record t { status = status })

  -- An expired transfer is paid back, and then the call raises.
  unfoldable pub expire_transfer : ChatTransfer → Action ChatDb ChatTransfer
  unfolding pay_out
  expire_transfer t =
      pay_out expired WalletLedgerKind.transfer_refund "转账过期退回" t.from_user_id t
      >> raise (app_error chat_invalid 409)

  unfoldable pub accept_transfer : ℕ → ℕ → Action ChatDb ChatTransfer
  unfolding addressed is_open expire_transfer pay_out
  accept_transfer user_id transfer_id = do
    found ← gets (λ db. lookup transfer_id db.transfers)
    t ← or_raise (addressed (λ t. t.to_user_id) user_id found) (app_error chat_not_found 404)
    raise_if (not (is_open t.status)) (app_error chat_invalid 409)
    if ltb t.expires_at env.now
        then expire_transfer t
        else pay_out accepted WalletLedgerKind.transfer_in "收到转账" user_id t

  unfoldable pub cancel_transfer : ℕ → ℕ → Action ChatDb ChatTransfer
  unfolding addressed is_open pay_out
  cancel_transfer user_id transfer_id = do
    found ← gets (λ db. lookup transfer_id db.transfers)
    t ← or_raise (addressed (λ t. t.from_user_id) user_id found) (app_error chat_not_found 404)
    raise_if (not (is_open t.status)) (app_error chat_invalid 409)
    pay_out cancelled WalletLedgerKind.transfer_refund "取消转账退回" user_id t
