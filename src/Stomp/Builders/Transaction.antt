-- ===== src/Stomp/Builders/Transaction.antt =====
-- src/broker/stomp/transaction.rs and `Session::begin_transaction`.
use grinbox.Prelude.{ℕ, ◌++◌, List}
use grinbox.Prelude.Text.{Text, codes}
use grinbox.Prelude.Decimal.{to_text}
use grinbox.Stomp.Header.{push}
use grinbox.Stomp.Header.Names.{StandardHeader}
use grinbox.Stomp.Frame.{std, begin_frame, commit_frame, abort_frame}
use grinbox.Stomp.Frame as Frames
use grinbox.Stomp.Session.{Session, send_frame, generate_transaction_id}
use grinbox.Stomp.Builders.Message.{MessageBuilder}
use grinbox.Stomp.Builders.Message as Message

pub record Transaction : Type 0 where
  pub id : Text
  pub session : Session

-- `Transaction::new`
unfoldable pub create : Session → Transaction
create s =
    let (n, s') = generate_transaction_id s in
    record { id = codes "tx/" ++ to_text n; session = s' }

-- `Transaction::message`
unfoldable pub message : Transaction → Text → List ℕ → MessageBuilder
message tx destination body =
    let f = Frames.send_frame destination body in
    Message.create tx.session
      (record f { headers = push f.headers (std StandardHeader.transaction tx.id) })

-- `Transaction::begin`, `commit` and `abort`
unfoldable pub begin : Transaction → Transaction
begin tx = record tx { session = send_frame tx.session (begin_frame tx.id) }

unfoldable pub commit : Transaction → Session
commit tx = send_frame tx.session (commit_frame tx.id)

unfoldable pub abort : Transaction → Session
abort tx = send_frame tx.session (abort_frame tx.id)

-- `Session::begin_transaction`
unfoldable pub begin_transaction : Session → Transaction
begin_transaction s = begin (create s)
