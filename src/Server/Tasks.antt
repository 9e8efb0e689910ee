-- ===== src/Server/Tasks.antt =====
-- The tasks of the thread pool, which src/socket/CServerSocket.cpp makes: each calls ClientThreadProc.
use asabru_engine.Common.{
  ℕ, ◌≡◌, ap, ◌∙◌, sym, List, [], ◌∷◌, ◌++◌, map, All, append_assoc, append-nil,
}
use asabru_engine.Proxy.{Attempt, done}
use asabru_engine.Server.{ClientData, client_thread_proc}

-- Each task works on the sockets of its own client, so that they are told one after the other. `call` is
-- what a routine does.
unfoldable pub run_all :
    {R S : Type 0} → (R → ClientData → S → Attempt (Unit {0}) × S) → R → List ClientData → S → S
unfolding client_thread_proc
run_all call routine [] state = state
run_all call routine (client ∷ clients) state =
    run_all call routine clients (client_thread_proc call routine client state)

client_thread_proc-done :
    {R S : Type 0} (call : R → ClientData → S → Attempt (Unit {0}) × S) (routine : R)
    (client : ClientData) (state state' : S)
    → call routine client state ≡ (done tt, state')
    → client_thread_proc call routine client state ≡ state'
unfolding client_thread_proc
client_thread_proc-done {S = S} call routine client state state' e =
    rw (e, client_thread_proc) (ap (λ (t : Attempt (Unit {0}) × S). t.1) e)

-- Where each thread comes to an end of its own, whatever ended before, all do, in their order.
pub run_all-ends :
    {R E : Type 0} (call : R → ClientData → List E → Attempt (Unit {0}) × List E) (routine : R)
    (make : ℕ → ClientData) (end_of : ℕ → E) (fds : List ℕ) (ends : List E)
    → All (λ fd. (es : List E) → call routine (make fd) es ≡ (done tt, es ++ (end_of fd ∷ []))) fds
    → run_all call routine (map make fds) ends ≡ ends ++ map end_of fds
unfolding run_all
run_all-ends call routine make end_of [] ends h = sym (append-nil ends)
run_all-ends call routine make end_of (fd ∷ fds) ends (e, h) =
    ap (run_all call routine (map make fds))
      (client_thread_proc-done call routine (make fd) ends (ends ++ (end_of fd ∷ [])) (e ends))
    ∙ (run_all-ends call routine make end_of fds (ends ++ (end_of fd ∷ [])) h
        ∙ append_assoc ends (end_of fd ∷ []) (map end_of fds))
