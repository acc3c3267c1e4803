-- ===== src/Network/Conn/SocketOptions.antt =====
-- pkg/network/tcp_con.go: the methods that set options of the socket, which is a state of the
-- environment.
use net_flux.Base.{ℕ, inl, inr, Bool, Option, none, some, if◌then◌else◌}
use net_flux.Network.Packet.{NetError, err_no_ready, not_tcp}
use net_flux.Network.Conn.{TcpConn, option_socket}

-- The options of a socket that `*net.TCPConn` and the connection's deadlines have.
pub data SocketOption : Type 0 where
  read_deadline write_deadline keep_alive_period : ℕ → SocketOption
  no_delay keep_alive : Bool → SocketOption

-- What the socket's `Control` does: it fails and does not call the function, or calls it.
pub data ControlAnswer : Type 0 where
  refused : NetError → ControlAnswer
  called : ControlAnswer

module _ {S : Type 0} where
  -- The methods that pass on to the socket; `set_option` is the socket's own method.
  unfoldable pub set_socket_option :
      (ℕ → SocketOption → S → S × Option NetError)
      → SocketOption
      → TcpConn
      → S
      → S × Option NetError
  set_socket_option set_option option c s = elim (option_socket c) [
    | inl e ↦ (s, some e)
    | inr socket ↦ set_option socket option s
  ]

  -- `tcpControl`. `is_tcp` tells whether the socket is a `*net.TCPConn`, and `raw` is the error of its
  -- `SyscallConn`.
  unfoldable pub tcp_control :
      (ℕ → Bool)
      → (ℕ → Option NetError)
      → (ℕ → ControlAnswer)
      → (ℕ → S → S × Option NetError)
      → TcpConn
      → S
      → S × Option NetError
  tcp_control is_tcp raw control fn c s = elim c.conn [
    | none ↦ (s, some err_no_ready)
    | some socket ↦
        if is_tcp socket
        then elim (raw socket) [
          | some e ↦ (s, some e)
          | none ↦ elim (control socket) [ refused e ↦ (s, some e) | called ↦ fn socket s ]
        ]
        else (s, some not_tcp)
  ]

  -- `SetReuseAddr` and `SetReusePort`, each by its system call with 1 or 0.
  unfoldable pub set_reuse :
      (ℕ → Bool)
      → (ℕ → Option NetError)
      → (ℕ → ControlAnswer)
      → (ℕ → ℕ → S → S × Option NetError)
      → Bool
      → TcpConn
      → S
      → S × Option NetError
  unfolding tcp_control
  set_reuse is_tcp raw control setsockopt enable c s =
      let v : ℕ = if enable then 1 else 0 in
      tcp_control is_tcp raw control (λ socket. setsockopt socket v) c s
