-- ===== src/SlackErrors.antt =====
-- src/scheduling_util/_send_errors_to_slack.py: the context manager that catches the errors of its
-- block and posts them to Slack. A post is its URL and the exception that it shows.
pub mod Boundary
use scheduling_util_py.Prelude.{
  Bool, true, false, String, Option, none, some, List, ◌∷◌, if◌then◌else◌, Exception, is_exception,
  Result, return, raise, Action, pure,
}
use scheduling_util_py.Prelude.Int.{ℤ}
use scheduling_util_py.RateLimiter.{RateLimiter, Mtimes, ping_if_ready}

-- The arguments of `send_errors_to_slack`, without the limiter.
pub record SlackBoundary : Type 0 where
  pub slack_webhook : Option String
  pub reraise : Bool
  pub log_error : Bool

-- The lines on the logger: an error, the notice of a post, and the warning that nothing is posted,
-- with the time of the last post.
pub data LogLine : Type 0 where
  error_line : Exception → LogLine
  posting_line : LogLine
  limited_line : ℤ → LogLine

-- The limiter, the modification times of the files, and what was posted and logged, the latest first.
pub record SlackState : Type 0 where
  pub limiter : RateLimiter
  pub files : Mtimes
  pub posts : List (String × Exception)
  pub log : List LogLine

-- How `requests.post` ends, after all posts before it: it returns, or it raises.
abbrev pub SlackClient : Type 0
SlackClient = List (String × Exception) → Option Exception

abbrev log_line : LogLine → SlackState → SlackState
log_line line k = record k { log = line ∷ k.log }

abbrev answer : Option Exception → Result (Unit {0})
answer none = return tt
answer (some e) = raise e

module _ (client : SlackClient) (from_timestamp : ℤ → ℤ) where
  abbrev post : String → Exception → Action SlackState (Unit {0})
  post url e k =
      let sent = record k { posts = (url, e) ∷ k.posts } in (answer (client sent.posts), sent)

  -- The inner `except Exception`.
  abbrev log_failed_post : Result (Unit {0}) → Action SlackState (Unit {0})
  log_failed_post (return _) = pure tt
  log_failed_post (raise e) =
      λ k. if is_exception e then (return tt, log_line (error_line e) k) else (raise e, k)

  abbrev post_caught : String → Exception → Action SlackState (Unit {0})
  post_caught url e k =
      let (r, sent) = post url e (log_line posting_line k) in log_failed_post r sent

  -- `now` and `touched` are the readings of the clock by the limiter.
  post_if_ready : String → (now touched : ℤ) → Exception → Action SlackState (Unit {0})
  post_if_ready url now touched e k =
      let (granted, l, files) = ping_if_ready from_timestamp now touched k.limiter k.files in
      let k' = record k { limiter = l; files = files } in
      if granted then post_caught url e k' else (return tt, log_line (limited_line l.timestamp) k')

  to_webhook : Option String → (now touched : ℤ) → Exception → Action SlackState (Unit {0})
  unfolding post_if_ready
  to_webhook none now touched e = pure tt
  to_webhook (some url) now touched e = post_if_ready url now touched e

  -- `if reraise: raise`, if nothing was raised before it.
  abbrev then_reraise : Bool → Exception → Result (Unit {0}) → Result (Unit {0})
  then_reraise reraise e (raise x) = raise x
  then_reraise reraise e (return _) = if reraise then raise e else return tt

  -- The body of `except Exception as e`.
  pub handle_error : SlackBoundary → (now touched : ℤ) → Exception → Action SlackState (Unit {0})
  unfolding to_webhook
  handle_error b now touched e k =
      let logged = if b.log_error then log_line (error_line e) k else k in
      let (r, after) = to_webhook b.slack_webhook now touched e logged in
      (then_reraise b.reraise e r, after)

  abbrev end_block :
      {S : Type 0}
      → SlackBoundary
      → (now touched : ℤ) → Result (Unit {0})
      → Action (S × SlackState) (Unit {0})
  end_block b now touched (return _) s = (return tt, s)
  end_block b now touched (raise e) (s, k) =
      let (r, after) = handle_error b now touched e k in
      if is_exception e then (r, (s, after)) else (raise e, (s, k))

  -- The context manager around a block.
  unfoldable pub send_errors_to_slack :
      {S : Type 0}
      → SlackBoundary
      → (now touched : ℤ) → (block : Action (S × SlackState) (Unit {0}))
      → Action (S × SlackState) (Unit {0})
  unfolding handle_error
  send_errors_to_slack b now touched block s =
      let (r, after) = block s in end_block b now touched r after
