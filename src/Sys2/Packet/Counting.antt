-- ===== src/Sys2/Packet/Counting.antt =====
-- sys2/mypacket.c: what the counters of the netfilter hook add up to.

use linux_driver.Base.{
  ℕ, ◌<◌, ◌≤◌, ◌+◌, ◌^◌, ◌≡◌, List, [], ◌∷◌, length, get_or, ◌==◌, ◌&&◌, ◌||◌, not, Bool,
  if◌then◌else◌, arith,
}
use linux_driver.Sys2.Packet.{SkBuff, Stats, increment, packet_hook}

-- A packet whose header says that it is an IP packet, and one that carries the given protocol, which
-- is byte 9 of its network header.
abbrev pub is_ip_packet : SkBuff → Bool
is_ip_packet p = (p.protocol == 0x0800) || (p.protocol == 0x86dd)

abbrev pub carries : (protocol : ℕ) → SkBuff → Bool
carries n p = is_ip_packet p && (get_or p.head (p.network_header + 9) 0 == n)

-- A packet of none of the three protocols.
abbrev pub is_other : SkBuff → Bool
is_other p = not (carries 6 p) && (not (carries 17 p) && not (carries 1 p))

-- How many packets are of a kind.
abbrev pub how_many : (SkBuff → Bool) → List SkBuff → ℕ
how_many f [] = 0
how_many f (p ∷ ps) = (if f p then 1 else 0) + how_many f ps

increment-lt : (n : ℕ) → n + 1 < 2 ^ 64 → increment n ≡ n + 1
unfolding increment
increment-lt n h = omega arith

-- The hook over a sequence of packets.
pub run_hook : List SkBuff → Stats → Stats
run_hook [] s = s
run_hook (p ∷ ps) s = run_hook ps (packet_hook p s).2

-- Each of the counters has room for `n` more.
pub record HasRoom (n : ℕ) (s : Stats) : Type 0 where
  pub ip : s.ip_packets + n < 2 ^ 64
  pub tcp : s.tcp_packets + n < 2 ^ 64
  pub udp : s.udp_packets + n < 2 ^ 64
  pub icmp : s.icmp_packets + n < 2 ^ 64
  pub other : s.other_packets + n < 2 ^ 64

-- The counters of `t` are those of `s` and the packets of their kinds.
abbrev pub Counted : List SkBuff → (s t : Stats) → Type 0
Counted ps s t =
    (t.ip_packets ≡ s.ip_packets + how_many is_ip_packet ps)
    × (t.tcp_packets ≡ s.tcp_packets + how_many (carries 6) ps)
    × (t.udp_packets ≡ s.udp_packets + how_many (carries 17) ps)
    × (t.icmp_packets ≡ s.icmp_packets + how_many (carries 1) ps)
    × (t.other_packets ≡ s.other_packets + how_many is_other ps)

packet_hook-Counted :
    (p : SkBuff) (s : Stats) → HasRoom 1 s → Counted (p ∷ []) s (packet_hook p s).2
unfolding packet_hook increment
packet_hook-Counted p s h = (
  ground (arith, h.ip),
  ground (arith, h.tcp),
  ground (arith, h.udp),
  ground (arith, h.icmp),
  ground (arith, h.other),
)

one_at_most : (f : SkBuff → Bool) (p : SkBuff) → (if f p then 1 else 0) ≤ 1
one_at_most f p = ground arith

-- As long as no counter can wrap, every packet is counted in the counters of its kind and in no other:
-- after any packets `ip_packets` went up by the number of IP packets, of version 4 or 6, without a
-- VLAN tag, those for TCP, UDP and ICMP by the number of such packets whose byte 9 is 6, 17 or 1, and
-- `other_packets` by the number of all the rest.
pub run_hook-Counted :
    (ps : List SkBuff) (s : Stats) → HasRoom (length ps) s → Counted ps s (run_hook ps s)
unfolding run_hook
run_hook-Counted [] s h = (omega arith, omega arith, omega arith, omega arith, omega arith)
run_hook-Counted (p ∷ ps) s h =
    let one = packet_hook-Counted p s (record {
      ip = omega (arith, h.ip);
      tcp = omega (arith, h.tcp);
      udp = omega (arith, h.udp);
      icmp = omega (arith, h.icmp);
      other = omega (arith, h.other);
    }) in
    let s1 = (packet_hook p s).2 in
    let (ip, tcp, udp, icmp, other) = one in
    let (ip', tcp', udp', icmp', other') = run_hook-Counted ps s1 (record {
      ip = omega (arith, ip, h.ip, one_at_most is_ip_packet p);
      tcp = omega (arith, tcp, h.tcp, one_at_most (carries 6) p);
      udp = omega (arith, udp, h.udp, one_at_most (carries 17) p);
      icmp = omega (arith, icmp, h.icmp, one_at_most (carries 1) p);
      other = omega (arith, other, h.other, one_at_most is_other p);
    }) in
    (
      omega (arith, ip, ip'),
      omega (arith, tcp, tcp'),
      omega (arith, udp, udp'),
      omega (arith, icmp, icmp'),
      omega (arith, other, other'),
    )
