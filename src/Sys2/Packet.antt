-- ===== src/Sys2/Packet.antt =====
-- sys2/mypacket.c, lines 23 to 118: the netfilter hook that counts packets.
pub mod Counting
use Prim.Native.Nat.{bit_and}
use linux_driver.Base.{
  ℕ, ◌+◌, ◌-◌, ◌^◌, ◌%◌, ℤ, pos, Bool, true, false, ◌&&◌, ◌||◌, List, [], ◌∷◌, leb, ◌==◌,
  if◌then◌else◌, get_or, set,
}
use linux_driver.Kernel.{nf_register_net_hook, nf_unregister_net_hook, Log}

-- Of a packet: its protocol and VLAN tag (in host order), where its data and its network header
-- begin, and the bytes from the start of the buffer.
pub record SkBuff : Type 0 where
  pub protocol : ℕ
  pub vlan_tci : ℕ
  pub head : List ℕ
  pub data_start : ℕ
  pub network_header : ℕ

-- The counters, `unsigned long` of 64 bits.
pub record Stats : Type 0 where
  pub vlan_stats : List ℕ
  pub ip_packets : ℕ
  pub tcp_packets : ℕ
  pub udp_packets : ℕ
  pub icmp_packets : ℕ
  pub other_packets : ℕ

abbrev pub eth_p_8021q : ℕ
eth_p_8021q = 0x8100

abbrev pub eth_p_ip : ℕ
eth_p_ip = 0x0800

abbrev pub eth_p_ipv6 : ℕ
eth_p_ipv6 = 0x86dd

abbrev pub ipproto_icmp : ℕ
ipproto_icmp = 1

abbrev pub ipproto_tcp : ℕ
ipproto_tcp = 6

abbrev pub ipproto_udp : ℕ
ipproto_udp = 17

abbrev pub is_vlan : SkBuff → Bool
is_vlan skb = skb.protocol == eth_p_8021q

abbrev pub is_ip : SkBuff → Bool
is_ip skb = (skb.protocol == eth_p_ip) || (skb.protocol == eth_p_ipv6)

-- `n++`
unfoldable pub increment : ℕ → ℕ
increment n = (n + 1) % 2 ^ 64

unfoldable pub vlan_id : SkBuff → ℕ
vlan_id skb = bit_and skb.vlan_tci 0x0fff

-- The first branch: the packet's VLAN is counted, and the four bytes of the tag are passed over.
unfoldable pub count_vlan : SkBuff → Stats → SkBuff × Stats
unfolding increment vlan_id
count_vlan skb s =
    let id = vlan_id skb in
    let counted = set s.vlan_stats (id - 1) (increment (get_or s.vlan_stats (id - 1) 0)) in
    let start = skb.data_start + 4 in
    if is_vlan skb
    then (
      record skb { data_start = start; network_header = start },
      if leb 1 id && leb id 4094 then record s { vlan_stats = counted } else s,
    )
    else (skb, s)

-- `ip_hdr(skb)->protocol`: byte 9 of the network header, also for IPv6.
unfoldable pub ip_protocol : SkBuff → ℕ
ip_protocol skb = get_or skb.head (skb.network_header + 9) 0

unfoldable pub count_transport : (protocol : ℕ) → Stats → Stats
unfolding increment
count_transport p s =
    if p == ipproto_tcp
    then record s { tcp_packets = increment s.tcp_packets }
    else if p == ipproto_udp
    then record s { udp_packets = increment s.udp_packets }
    else if p == ipproto_icmp
    then record s { icmp_packets = increment s.icmp_packets }
    else record s { other_packets = increment s.other_packets }

unfoldable pub count_ip : SkBuff → Stats → Stats
unfolding increment ip_protocol count_transport
count_ip skb s =
    if is_ip skb
    then count_transport (ip_protocol skb) (record s { ip_packets = increment s.ip_packets })
    else record s { other_packets = increment s.other_packets }

-- NF_ACCEPT is 1.
unfoldable pub packet_hook : SkBuff → Stats → ℕ × SkBuff × Stats
unfolding count_vlan count_ip
packet_hook skb s = let (skb', s') = count_vlan skb s in (1, skb', count_ip skb' s')

-- The answer of the kernel is not looked at.
unfoldable pub register_net_hooks : (ret : ℤ) → Log → ℤ × Log
register_net_hooks ret log = (pos 0, nf_register_net_hook ret ∷ log)

unfoldable pub unregister_net_hooks : Log → Log
unregister_net_hooks log = nf_unregister_net_hook ∷ log
