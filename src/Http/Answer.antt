-- ===== src/Http/Answer.antt =====
-- `send_cb` of reactor+http/reactor_singlecb_http_c1000k.c and the registration of cells.
use mathlib.Core.Path.{subst}
use hello_world.Prelude.{
  ℕ, ◌≡◌, refl, ◌∙◌, inl, inr, Option, none, some, List, ◌==◌, Bool-cases, ℤ, is_positive, pos,
}
use hello_world.Outcome.{>>=-eq-ok, ok-injective, ok-second, ok}
use hello_world.Sys.{Call, Log, Kernel, epollin}
use hello_world.Sys.Interest.{interest}
use hello_world.Reactor.Event.{Cell, log_call, nty_event_del, recv_cb}
use hello_world.Reactor.Table.{watch}
use hello_world.Reactor.Address.{address}
use hello_world.Reactor.Registration.{
  EpollWorks, Registered, Keeps, Keeps-trans, del-Deleted, Keeps-watch,
}
use hello_world.Reactor.Quiet.{
  Quiet, Quiet-refl, Quiet-trans, Quiet-app, Quiet-call, Quiet-close, Keeps-Quiet,
}
use hello_world.CString.{crlf, read_array, c_string, sprintf}
use hello_world.Http.Request.{HttpFields, http_method_get, zeroed_fields}
use hello_world.Http.Response.{
  default_response, file_header, open_resource, set_response, respond, answer_found,
  nty_http_response_get_method, nty_http_response,
}
use hello_world.Http.Callbacks.{descriptor_or, send_file, send_body}
use hello_world.Http.Keeps.{disconnect-Keeps}

-- `open` returns a descriptor that is new, so epoll does not watch it.
abbrev pub OpensNew : Kernel → Type 0
OpensNew k =
    (log : Log) (path : List ℕ) (n : ℕ) → k.open_file log path ≡ some n → interest log n ≡ none

module _ (k : Kernel) (new : OpensNew k) where
  record Opened (found : Option ℕ) (c c' : Cell HttpFields) : Type 0 where
    quiet : Quiet c c'
    unwatched : (n : ℕ) → found ≡ some n → interest c'.log n ≡ none

  open_resource-Opened :
      {c c' : Cell HttpFields} {found : Option ℕ}
      → open_resource k c ≡ ok (found, c')
      → Opened found c c'
  unfolding open_resource
  open_resource-Opened {c} {c'} {found} h =
      let (path, e, h₁) = >>=-eq-ok (c_string c.ev.app.resource) _ h in
      let is_found : k.open_file c.log path ≡ found = cc in
      let after : log_call (Call.open_call path) c ≡ c' = cc in
      subst (λ t. Opened found c t) after
        (record {
          quiet = Quiet-call (Call.open_call path) c (λ q w. refl) (λ log. tt);
          unwatched = λ n e'. new c.log path n (is_found ∙ e');
        })

  respond-Quiet :
      (text : List ℕ) {c c' : Cell HttpFields} (r : ℤ) → respond text c ≡ ok (r, c') → Quiet c c'
  unfolding respond
  respond-Quiet text {c} r h =
      let (wbuffer, e, h₁) = >>=-eq-ok (sprintf c.ev.app.wbuffer text) _ h in
      let after : set_response wbuffer text c ≡ _ = cc in
      subst (λ t. Quiet c t) after (Quiet-app _ c)

  get_method-found :
      (found : Option ℕ) {c₁ c' : Cell HttpFields} (r : ℤ)
      → ((n : ℕ) → found ≡ some n → interest c₁.log n ≡ none)
      → answer_found k found c₁ ≡ ok (r, c')
      → Quiet c₁ c'
  unfolding answer_found
  get_method-found none r idle h = respond-Quiet default_response r h
  get_method-found (some n) {c₁} r idle h =
      let c₂ = log_call (Call.fstat_call (pos n)) c₁ in
      Quiet-trans (Quiet-call (Call.fstat_call (pos n)) c₁ (λ q w. refl) (λ log. tt)) (
        Quiet-trans (Quiet-close n c₂ (idle n refl))
          (respond-Quiet (file_header (k.file_size c₁.log (pos n))) r h))

  response-Quiet : {c c' : Cell HttpFields} → nty_http_response k c ≡ ok c' → Quiet c c'
  unfolding nty_http_response nty_http_response_get_method
  response-Quiet {c} {c'} h = elim (Bool-cases (c.ev.app.method == http_method_get)) [
    | inl e ↦
        let ((r, c₁), e₁, h₁) = >>=-eq-ok (nty_http_response_get_method k c) _ (rw e at h) in
        let ((found, c₂), e₂, h₂) = >>=-eq-ok (open_resource k c) _ e₁ in
        let o = open_resource-Opened e₂ in
        subst (λ t. Quiet c t) (ok-injective h₁)
          (Quiet-trans o.quiet (get_method-found found r o.unwatched h₂))
    | inr e ↦
        let h' = rw e at h in let same : c ≡ c' = cc in subst (λ t. Quiet c t) same (Quiet-refl c)
  ]

  close_found :
      (found : Option ℕ) (c : Cell HttpFields)
      → ((n : ℕ) → found ≡ some n → interest c.log n ≡ none)
      → Quiet c (log_call (Call.close_call (descriptor_or found)) c)
  close_found none c idle = Quiet-call _ c (λ q w. refl) (λ log. tt)
  close_found (some n) c idle = Quiet-close n c (idle n refl)

  send_file-Quiet : (fd : ℕ) {c c' : Cell HttpFields} → send_file k fd c ≡ ok c' → Quiet c c'
  unfolding send_file
  send_file-Quiet fd {c} {c'} h =
      let ((found, c₁), e₁, h₁) = >>=-eq-ok (open_resource k c) _ h in
      let o = open_resource-Opened e₁ in
      let filefd : ℤ = descriptor_or found in
      let c₂ = log_call (Call.fstat_call filefd) c₁ in
      let c₃ = log_call (Call.set_blocking_call (pos fd)) c₂ in
      let c₄ = log_call (Call.sendfile_call fd filefd (k.file_size c₁.log filefd)) c₃ in
      let c₅ = log_call (Call.set_nonblocking_call (pos fd)) c₄ in
      let c₆ = log_call (Call.close_call filefd) c₅ in
      let c₇ = log_call (Call.send_call fd crlf) c₆ in
      let g₂ = Quiet-call (Call.fstat_call filefd) c₁ (λ q w. refl) (λ log. tt) in
      let g₃ = Quiet-call (Call.set_blocking_call (pos fd)) c₂ (λ q w. refl) (λ log. tt) in
      let g₄ =
        Quiet-call (Call.sendfile_call fd filefd (k.file_size c₁.log filefd)) c₃ (λ q w. refl)
          (λ log. tt) in
      let g₅ = Quiet-call (Call.set_nonblocking_call (pos fd)) c₄ (λ q w. refl) (λ log. tt) in
      let g₆ = close_found found c₅ o.unwatched in
      let g₇ = Quiet-call (Call.send_call fd crlf) c₆ (λ q w. refl) (λ log. tt) in
      subst (λ t. Quiet c t) (ok-injective h₁)
        (Quiet-trans o.quiet
          (Quiet-trans g₂ (Quiet-trans g₃ (Quiet-trans g₄ (Quiet-trans g₅ (Quiet-trans g₆ g₇))))))

  module _ (works : EpollWorks k) (fd : ℕ) where
    rearm-Keeps :
        {c : Cell HttpFields}
        → Registered fd c
        → Keeps fd c (
            watch zeroed_fields k fd recv_cb epollin
              (address fd)
              (nty_event_del k (address fd) c).1)
    rearm-Keeps r =
        let d = del-Deleted fd k works r in
        Keeps-trans fd d.keeps (
          Keeps-watch fd k works zeroed_fields recv_cb epollin (inl (refl, inl refl))
            d.keeps.registered)

    -- `send_cb` on the cell of its descriptor.
    pub send_body-Keeps :
        (r : ℤ) {c c' : Cell HttpFields}
        → Registered fd c
        → c.ev.fd ≡ fd
        → send_body k fd (address fd) c ≡ ok (r, c')
        → Keeps fd c c'
    unfolding send_body
    send_body-Keeps r {c} {c'} reg own h =
        let (c₁, e₁, h₁) = >>=-eq-ok (nty_http_response k c) _ h in
        let (bytes, e₂, h₂) = >>=-eq-ok (read_array c₁.ev.app.wlength c₁.ev.app.wbuffer) _ h₁ in
        let c₂ = log_call (Call.send_call fd bytes) c₁ in
        let g : Quiet c c₂ =
          Quiet-trans (response-Quiet e₁)
            (Quiet-call (Call.send_call fd bytes) c₁ (λ q w. refl) (λ log. tt)) in
        let g' = Keeps-Quiet fd g reg in
        elim (Bool-cases (is_positive (k.send c₁.log fd bytes))) [
          | inl e ↦
              let (c₃, e₃, h₃) = >>=-eq-ok (send_file k fd c₂) _ (rw e at h₂) in
              let f = Keeps-Quiet fd (send_file-Quiet fd e₃) g'.registered in
              subst (λ t. Keeps fd c t) (ok-second h₃)
                (Keeps-trans fd g' (Keeps-trans fd f (rearm-Keeps f.registered)))
          | inr e ↦
              let h₃ = rw e at h₂ in
              subst (λ t. Keeps fd c t) (ok-second h₃)
                (Keeps-trans fd g' (disconnect-Keeps k works fd g'.registered (g.same_fd ∙ own)))
        ]
