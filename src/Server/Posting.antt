-- ===== src/Server/Posting.antt =====
-- A slate's way through src/server/mod.rs: from `post_slate` to the broker, and from the broker to
-- the client that has subscribed.
use grinbox.Prelude.{
  ℕ, ◌≡◌, true, Option, none, some, [], ◌∷◌, ◌++◌, arith, ◌&&◌, ◌==◌, append-nil, subst,
}
use grinbox.Prelude.Text.{Text, text_eq}
use grinbox.Types.Errors.{ErrorKind, Outcome, err}
use grinbox.Types.Messages.{GrinboxResponse, slate}
use grinbox.Broker.Protocol.{BrokerRequest, BrokerResponse}
use grinbox.Types.Address.{GrinboxAddress}
use grinbox.Server.Environment.{Environment, IsFaithful}
use grinbox.Server.Authority.{IsSigned}
use grinbox.Server.Handler.{
  AsyncServer, challenge_raw, send_broker, forward, post_checked, post_slate, on_broker_response,
}

-- The relay is the one that an address names.
abbrev pub IsHome : AsyncServer → GrinboxAddress → Type 0
IsHome s a = ((a.port == s.grinbox_port) && text_eq a.domain s.grinbox_domain) ≡ true

-- What the broker gives the subscriber of a subject for a message that was posted to it.
abbrev pub relayed : BrokerRequest → Option BrokerResponse
relayed (BrokerRequest.post_message subject payload reply_to _) =
    some (record { subject = subject; payload = payload; reply_to = reply_to })
relayed _ = none

module _ (env : Environment) where
  -- The text that goes with a slate is such that the sender's signature is over both.
  pub record IsSlateOf (from : GrinboxAddress) (str signature : Text) (r : Option GrinboxResponse)
      : Type 0 where
    pub used : Text
    pub signed : IsSigned env from str used signature
    pub response : r ≡ some (slate (env.stripped from) str signature used)

  -- What the handler makes of what it gets for a request.
  abbrev pub received : BrokerRequest → Option GrinboxResponse
  received q = elim (relayed q) [ none ↦ none | some m ↦ on_broker_response env m ]

  abbrev pub posted : GrinboxAddress → GrinboxAddress → Option ℕ → Text → BrokerRequest
  posted from to seconds payload =
      BrokerRequest.post_message to.public_key payload (env.stripped from) seconds

  -- The request that posting adds to the log.
  pub record IsPosted (s s' : AsyncServer) (from to : GrinboxAddress) (str signature : Text)
      (seconds : Option ℕ) : Type 0 where
    pub payload : Text
    pub logged : s'.requests ≡ s.requests ++ posted from to seconds payload ∷ []
    pub slate : IsSlateOf from str signature (received (posted from to seconds payload))

  forward-IsPosted :
      (s : AsyncServer) (from to : GrinboxAddress) (str used signature : Text) (seconds : Option ℕ)
      → IsFaithful env
      → s.broker_lives ≡ true
      → IsHome s to
      → IsSigned env from str used signature
      → IsPosted s
          (forward env s from to str used signature seconds).1
          from
          to
          str
          signature
          seconds
  unfolding forward send_broker on_broker_response
  forward-IsPosted s from to str used signature seconds faithful lives home signed = record {
    payload = env.print_payload (record { str = str; challenge = used; signature = signature });
    logged = ground (arith, lives, home);
    slate = record {
      used = used;
      signed = signed;
      response = ground (
        arith,
        faithful.parse-print (record { str = str; challenge = used; signature = signature }),
      );
    };
  }

  -- A sender's signature over the slate alone, or else over the slate and the challenge.
  pub data IsAccepted (from : GrinboxAddress) (str signature : Text) : Type 0 where
    alone : IsSigned env from str [] signature → IsAccepted from str signature
    with_challenge :
        {k : ErrorKind}
        → env.check_signature from.public_key str signature ≡ err k
        → IsSigned env from str challenge_raw signature
        → IsAccepted from str signature

  post_checked-IsPosted :
      (s : AsyncServer) (from to : GrinboxAddress) (str signature : Text) (seconds : Option ℕ)
      → IsFaithful env
      → s.broker_lives ≡ true
      → IsHome s to
      → IsAccepted from str signature
      → IsPosted s
          (post_checked env s from to str signature seconds).1
          from
          to
          str
          signature
          seconds
  unfolding post_checked
  post_checked-IsPosted s from to str signature seconds faithful lives home (alone e) =
      rw
        (
          subst (λ (t : Text). env.check_signature from.public_key t signature ≡ Outcome.ok tt)
              (append-nil str) e,
          post_checked,
        )
        (forward-IsPosted s from to str [] signature seconds faithful lives home e)
  post_checked-IsPosted s from to str signature seconds faithful lives home (with_challenge e f) =
      rw (e, post_checked)
        (rw f
          (forward-IsPosted s from to str challenge_raw signature seconds faithful lives home f))

  -- When both addresses parse, the receiver's names this relay, the broker's thread lives and the
  -- signature is the sender's over the slate, or fails over it and is the sender's over the slate
  -- and the challenge, `post_slate` posts one request; the client that is sent the message for it
  -- gets the sender, the slate, the signature and a text such that the signature verifies over the
  -- slate and the text. It relies on a payload's JSON being parsed back.
  pub post_slate-IsPosted :
      (s : AsyncServer) (from to str signature : Text) (seconds : Option ℕ)
      (from_address to_address : GrinboxAddress)
      → IsFaithful env
      → s.broker_lives ≡ true
      → env.from_str_raw from ≡ Outcome.ok from_address
      → env.from_str_raw to ≡ Outcome.ok to_address
      → IsHome s to_address
      → IsAccepted from_address str signature
      → IsPosted s
          (post_slate env s from to str signature seconds).1
          from_address
          to_address
          str
          signature
          seconds
  unfolding post_slate
  post_slate-IsPosted s from to str signature seconds from_address to_address faithful lives e f
        home accepted =
      rw (e, post_slate)
        (rw f (
          post_checked-IsPosted s from_address to_address str signature seconds faithful lives home
            accepted))
